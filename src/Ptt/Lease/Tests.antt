-- ===== src/Ptt/Lease/Tests.antt =====
-- The transmit lease at a concrete history.
use native.Mathlib.Decide.{ℕ_discrete}
use omnimodem.Base.{ℕ, ◌≡◌, refl, true, false, List, [], ◌∷◌, arith}
use omnimodem.Base.Store.{get, insert}
use omnimodem.Ptt.Lease.{
  held_by, acquire, may_transmit, release_all, Op, acquires, releases, leaves, run, step,
}
use omnimodem.Ptt.Lease.Exclusive.{acquire_excludes}

abbrev history : List (Op ℕ)
history = acquires 100 2 ∷ releases 100 2 ∷ acquires 101 2 ∷ leaves 2 ∷ []

-- Rig 100 is granted to channel 1 while channel 2 holds rig 101.
acquire_excludes_example :
    (may_transmit ℕ_discrete 100 1
        (run ℕ_discrete history (acquire ℕ_discrete 100 1 ((101, 2) ∷ [])).1)
      ≡ true)
    × (may_transmit ℕ_discrete 100 2
          (run ℕ_discrete history (acquire ℕ_discrete 100 1 ((101, 2) ∷ [])).1)
        ≡ false)
    × ((acquire ℕ_discrete 100 2
          (run ℕ_discrete history (acquire ℕ_discrete 100 1 ((101, 2) ∷ [])).1)).0
        ≡ held_by 1)
unfolding acquire get ℕ_discrete
acquire_excludes_example =
    acquire_excludes ℕ_discrete 100 1 2 history ((101, 2) ∷ []) refl
      ((λ e. omega arith), ((λ e. omega arith), ((λ e. omega arith), ((λ e. omega arith), tt))))
      (λ e. omega arith)

left_free : run ℕ_discrete (acquires 7 1 ∷ leaves 1 ∷ []) [] ≡ []
unfolding run step acquire release_all get insert
left_free = refl
