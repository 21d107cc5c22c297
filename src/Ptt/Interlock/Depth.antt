-- ===== src/Ptt/Interlock/Depth.antt =====
-- The interlock beside the number of keys that are held on a device.
use mathlib.Core.Logic.{ite, if_pos, if_neg}
use omnimodem.Base.{
  ℕ, ◌+◌, ◌-◌, ◌%◌, ◌^◌, ◌<◌, ◌≡◌, refl, ◌∙◌, List, [], ◌∷◌, Option, none, some, arith, ltb, ◌==◌,
  if◌then◌else◌, length, inl, inr, Bool-cases, Option-cases,
}
use omnimodem.Base.Store.{get, get-insert_self, get-insert_ne, get-remove_self, get-remove_ne}
use omnimodem.Ptt.Interlock.{Op, begin, end, begin_tx, end_tx, is_muted, step, run}

-- What a store says of a device on which `n` keys are held: it has no entry at zero.
abbrev pub held : ℕ → Option ℕ
held n = if n == 0 then none else some n

held-suc : (n : ℕ) → held (n + 1) ≡ some (n + 1)
held-suc n = ground arith

module _ {K : Type 0} (same : Discrete K) where
  -- The keys that are held on one device, from the calls alone; an end without a begin counts
  -- for nothing.
  unfoldable pub depth : K → ℕ → List (Op K) → ℕ
  depth id n [] = n
  depth id n (begin j ∷ ops) = depth id (ite (same j id) (n + 1) n) ops
  depth id n (end j ∷ ops) = depth id (ite (same j id) (n - 1) n) ops

  pub begin_self :
      (id : K) (n : ℕ) (keyed : List (K × ℕ))
      → n + 1 < 2 ^ 32
      → get same id keyed ≡ held n
      → get same id (begin_tx same id keyed) ≡ held (n + 1)
  unfolding begin_tx
  begin_self id n keyed h e = elim (Bool-cases (n == 0)) [
    | inl none_held ↦ rw (e, begin_tx, none_held) (get-insert_self same id 1 keyed ∙ ground arith)
    | inr some_held ↦
        rw (e, begin_tx, some_held)
          (get-insert_self same id ((n + 1) % 2 ^ 32) keyed ∙ ground arith)
  ]

  pub begin_ne :
      (j id : K) (keyed : List (K × ℕ))
      → ¬ (j ≡ id)
      → get same id (begin_tx same j keyed) ≡ get same id keyed
  unfolding begin_tx
  begin_ne j id keyed ne = elim (Option-cases (get same j keyed)) [
    | inl e ↦ rw (e, begin_tx) (get-insert_ne same j id 1 keyed ne)
    | inr (c, e) ↦ rw (e, begin_tx) (get-insert_ne same j id _ keyed ne)
  ]

  pub end_self :
      (id : K) (n : ℕ) (keyed : List (K × ℕ))
      → get same id keyed ≡ held n
      → get same id (end_tx same id keyed) ≡ held (n - 1)
  unfolding end_tx
  end_self id n keyed e = elim (Bool-cases (n == 0)) [
    | inl none_held ↦ rw (e, end_tx, none_held) (e ∙ ground arith)
    | inr some_held ↦ elim (Bool-cases (n - 1 == 0)) [
      | inl last ↦ rw (e, end_tx, some_held, last) (get-remove_self same id keyed ∙ ground arith)
      | inr more ↦
          rw (e, end_tx, some_held, more) (get-insert_self same id (n - 1) keyed ∙ ground arith)
    ]
  ]

  pub end_ne :
      (j id : K) (keyed : List (K × ℕ))
      → ¬ (j ≡ id)
      → get same id (end_tx same j keyed) ≡ get same id keyed
  unfolding end_tx
  end_ne j id keyed ne = elim (Option-cases (get same j keyed)) [
    | inl e ↦ rw (e, end_tx) refl
    | inr (c, e) ↦ elim (Bool-cases (c - 1 == 0)) [
      | inl last ↦ rw (e, end_tx, last) (get-remove_ne same j id keyed ne)
      | inr more ↦ rw (e, end_tx, more) (get-insert_ne same j id (c - 1) keyed ne)
    ]
  ]

  pub run_counts :
      (id : K) (n : ℕ) (ops : List (Op K)) (keyed : List (K × ℕ))
      → n + length ops < 2 ^ 32
      → get same id keyed ≡ held n
      → get same id (run same ops keyed) ≡ held (depth id n ops)
  unfolding run step depth
  run_counts id n [] keyed h e = e
  run_counts id n (begin j ∷ ops) keyed h e = elim (same j id) [
    | yes p ↦ rw (if_pos (same j id) p) (
        run_counts id (n + 1) ops (begin_tx same j keyed) (omega arith)
          (rw p (begin_self id n keyed (omega arith) e)))
    | no ne ↦
        rw (if_neg (same j id) ne)
          (run_counts id n ops (begin_tx same j keyed) (omega arith) (begin_ne j id keyed ne ∙ e))
  ]
  run_counts id n (end j ∷ ops) keyed h e = elim (same j id) [
    | yes p ↦ rw (if_pos (same j id) p) (
        run_counts id (n - 1) ops (end_tx same j keyed) (omega arith)
          (rw p (end_self id n keyed e)))
    | no ne ↦
        rw (if_neg (same j id) ne)
          (run_counts id n ops (end_tx same j keyed) (omega arith) (end_ne j id keyed ne ∙ e))
  ]

  -- After any history of fewer than 2 ^ 32 calls on a fresh interlock, a device is muted exactly
  -- while a key on it is held: a begin adds one, an end takes one away, and an end while none is
  -- held counts for nothing; calls on other devices do not matter.
  pub is_muted-run :
      (id : K) (ops : List (Op K))
      → length ops < 2 ^ 32
      → is_muted same id (run same ops []) ≡ ltb 0 (depth id 0 ops)
  unfolding is_muted
  is_muted-run id ops h =
      rw (run_counts id 0 ops [] (omega arith) (unfold get in refl), is_muted) (ground arith)
