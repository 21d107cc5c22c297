-- ===== src/Ptt/Lease/Exclusive.antt =====
-- A lease that is held, over the calls of other channels.
use omnimodem.Base.{
  ℕ, ◌≡◌, refl, ◌∙◌, ap, ◌≢◌, true, false, List, [], ◌∷◌, Option, none, some, arith, ◌==◌, All, inl,
  inr, Bool-cases, Option-cases, ==_iff,
}
use omnimodem.Base.Store.{get, get-insert_self, get-insert_ne, get-remove_ne}
use omnimodem.Ptt.Lease.{
  granted, held_by, acquire, release, may_transmit, release_all, Op, acquires, releases, leaves, by,
  step, run,
}

some-ne-none : {A : Type 0} {a : A} → ¬ (◌≡◌ {A = Option A} none (some a))
some-ne-none e = cc

not_mine_false : (c d : ℕ) → d ≢ c → (c == d) ≡ false
not_mine_false c d ne = ground arith

module _ {K : Type 0} (same : Discrete K) where
  acquire_other :
      (rig j : K) (c d : ℕ) (holders : List (K × ℕ))
      → d ≢ c
      → get same rig holders ≡ some c
      → get same rig (acquire same j d holders).1 ≡ some c
  unfolding acquire
  acquire_other rig j c d holders ne e = elim (Option-cases (get same j holders)) [
    | inl free ↦
        rw (free, acquire) (get-insert_ne same j rig d holders (λ p. cc (rw p at free)) ∙ e)
    | inr (h, taken) ↦ elim (Bool-cases (h == d)) [
      | inl mine ↦ rw (taken, acquire, mine) e
      | inr not_mine ↦ rw (taken, acquire, not_mine) e
    ]
  ]

  release_other :
      (rig j : K) (c d : ℕ) (holders : List (K × ℕ))
      → d ≢ c
      → get same rig holders ≡ some c
      → get same rig (release same j d holders) ≡ some c
  unfolding release
  release_other rig j c d holders ne e = elim (Option-cases (get same j holders)) [
    | inl free ↦ rw (free, release) e
    | inr (h, taken) ↦ elim (Bool-cases (h == d)) [
      | inl mine ↦
          rw (taken, release, mine) (get-remove_ne same j rig holders (λ p. ne (ground arith)) ∙ e)
      | inr not_mine ↦ rw (taken, release, not_mine) e
    ]
  ]

  release_all_other :
      (rig : K) (c d : ℕ) (holders : List (K × ℕ))
      → d ≢ c
      → get same rig holders ≡ some c
      → get same rig (release_all d holders) ≡ some c
  unfolding release_all get
  release_all_other rig c d [] ne e = e
  release_all_other rig c d ((k, h) ∷ holders) ne e =
      ground (arith, release_all_other rig c d holders ne)

  step_other :
      (rig : K) (c : ℕ) (op : Op K) (holders : List (K × ℕ))
      → by op ≢ c
      → get same rig holders ≡ some c
      → get same rig (step same op holders) ≡ some c
  unfolding step
  step_other rig c (acquires j d) holders ne e = acquire_other rig j c d holders ne e
  step_other rig c (releases j d) holders ne e = release_other rig j c d holders ne e
  step_other rig c (leaves d) holders ne e = release_all_other rig c d holders ne e

  pub run_other :
      (rig : K) (c : ℕ) (ops : List (Op K)) (holders : List (K × ℕ))
      → All (λ op. by op ≢ c) ops
      → get same rig holders ≡ some c
      → get same rig (run same ops holders) ≡ some c
  unfolding run
  run_other rig c [] holders others e = e
  run_other rig c (op ∷ ops) holders others e =
      run_other rig c ops (step same op holders) others.1 (step_other rig c op holders others.0 e)

  acquire_granted :
      (rig : K) (c : ℕ) (holders : List (K × ℕ))
      → (acquire same rig c holders).0 ≡ granted
      → get same rig (acquire same rig c holders).1 ≡ some c
  unfolding acquire
  acquire_granted rig c holders g = elim (Option-cases (get same rig holders)) [
    | inl free ↦ rw (free, acquire) (get-insert_self same rig c holders)
    | inr (h, taken) ↦ elim (Bool-cases (h == c)) [
      | inl mine ↦ rw (taken, acquire, mine) (taken ∙ ap some ((==_iff h c).0 mine))
      | inr not_mine ↦ cc (rw (taken, acquire, not_mine) at g)
    ]
  ]

  -- Once a channel was granted a rig, whatever the other channels then call, it may transmit
  -- there, no other channel may, and another's request is refused with the holder's name.
  pub acquire_excludes :
      (rig : K) (c d : ℕ) (ops : List (Op K)) (holders : List (K × ℕ))
      → (acquire same rig c holders).0 ≡ granted
      → All (λ op. by op ≢ c) ops
      → d ≢ c
      → let later = run same ops (acquire same rig c holders).1 in
        (may_transmit same rig c later ≡ true)
        × (may_transmit same rig d later ≡ false)
        × ((acquire same rig d later).0 ≡ held_by c)
  unfolding may_transmit acquire
  acquire_excludes rig c d ops holders g others ne =
      let held =
        run_other rig c ops (acquire same rig c holders).1 others
          (acquire_granted rig c holders g) in
      let own = (==_iff c c).1 refl in
      let foreign = not_mine_false c d ne in
      (
        rw (held, may_transmit, own) refl,
        rw (held, may_transmit, foreign) refl,
        rw (held, acquire, foreign) refl,
      )
