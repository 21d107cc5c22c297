-- ===== src/Mode/Config/Arms/Grid.antt =====
-- The labels of Contestia, over its grid.
use omnimodem.Base.{
  ℕ, ◌≡◌, refl, Bool, true, false, ◌&&◌, List, [], ◌∷◌, Option, some, arith, ◌==◌, inl, inr,
  Bool-cases,
}
use omnimodem.Base.Text.{
  decimal, decimal_before, text_eq, split_once, parse_uint, parse_digits, to_digit,
}
use omnimodem.Mode.Labels.{
  is_label, is_ifkp, is_fsq, contestia_from_label, strip_prefix, in_grid, contestia_grid,
  contestia_label,
}
use omnimodem.Mode.Config.{Arm, of_contestia, arm_of}
use omnimodem.Mode.Config.Arms.{lacks, Takes, lacks_sound}

is_contestia : ℕ → ℕ → Option Arm → Bool
is_contestia t b (some (of_contestia t' b')) = t' == t && b' == b
is_contestia t b _ = false

is_contestia_sound :
    (t b : ℕ) (o : Option Arm) → is_contestia t b o ≡ true → o ≡ some (of_contestia t b)
unfolding is_contestia
is_contestia_sound t b o h = ground (arith, h)

grid_takes : List (ℕ × ℕ) → Bool
grid_takes [] = true
grid_takes ((t, b) ∷ grid) =
    is_contestia t b (arm_of (contestia_label t b))
    && (lacks b':' (contestia_label t b) && grid_takes grid)

grid_takes_sound :
    (grid : List (ℕ × ℕ)) (t b : ℕ)
    → grid_takes grid ≡ true
    → in_grid grid t b ≡ true
    → Takes (of_contestia t b) (contestia_label t b)
unfolding grid_takes in_grid
grid_takes_sound [] t b h e = cc
grid_takes_sound ((t', b') ∷ grid) t b h e = elim (Bool-cases (t' == t && b' == b)) [
  | inl here ↦
      let same_t : t' ≡ t = ground arith in
      let same_b : b' ≡ b = ground arith in
      rw (← same_t, ← same_b)
        (
          is_contestia_sound t' b' (arm_of (contestia_label t' b')) (ground arith),
          lacks_sound b':' (contestia_label t' b') (ground arith),
        )
  | inr later ↦ grid_takes_sound grid t b (ground arith) (rw later at e)
]

grid_take : grid_takes contestia_grid ≡ true
unfolding grid_takes is_contestia lacks arm_of is_label is_ifkp is_fsq text_eq contestia_from_label
    contestia_label strip_prefix split_once parse_uint parse_digits to_digit in_grid decimal
    decimal_before
grid_take = refl

pub contestia-Takes :
    (t b : ℕ) → in_grid contestia_grid t b ≡ true → Takes (of_contestia t b) (contestia_label t b)
contestia-Takes t b h = grid_takes_sound contestia_grid t b grid_take h
