-- ===== src/Ptt/Interlock/Tests.antt =====
-- The interlock at a concrete history.
use native.Mathlib.Decide.{ℕ_discrete}
use omnimodem.Base.{ℕ, ◌≡◌, List, [], ◌∷◌, ltb, arith}
use omnimodem.Ptt.Interlock.{is_muted, Op, begin, end, run}
use omnimodem.Ptt.Interlock.Depth.{depth, is_muted-run}

abbrev history : List (Op ℕ)
history = end 5 ∷ begin 5 ∷ begin 6 ∷ begin 5 ∷ end 5 ∷ end 6 ∷ []

is_muted-run_example :
    is_muted ℕ_discrete 5 (run ℕ_discrete history []) ≡ ltb 0 (depth ℕ_discrete 5 0 history)
is_muted-run_example = is_muted-run ℕ_discrete 5 history (omega arith)
