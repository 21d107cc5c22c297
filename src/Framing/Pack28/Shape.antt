-- ===== src/Framing/Pack28/Shape.antt =====
-- The shape of a standard callsign, and the field of six characters it is written in.
use omnimodem.Base.{
  ℕ, zero, suc, ◌+◌, ◌<◌, ◌≤◌, ◌≡◌, ◌≢◌, ◌⊎◌, refl, true, ◌||◌, [], ◌∷◌, ◌==◌, length, drop, All,
  arith, inl, inr, Bool-cases,
}
use omnimodem.Base.Text.{Text}
use omnimodem.Base.Text.Words.{trim, trim_start, trim_end, IsInk}
use omnimodem.Framing.Pack28.{
  is_digit, is_upper, area_from, area, count, is_standard, fill, field_of,
}

-- A digit or a capital.
abbrev pub IsCallChar : ℕ → Type 0
IsCallChar c = (is_digit c || is_upper c) ≡ true

call-IsInk : (c : ℕ) → IsCallChar c → IsInk c
unfolding is_digit is_upper
call-IsInk c h = printable c (ground arith) (ground arith)
  where
    printable : (c : ℕ) → 48 ≤ c → c ≤ 90 → IsInk c
    printable c low high = ground arith

pub calls-IsInk : (cs : Text) → All IsCallChar cs → All IsInk cs
calls-IsInk [] h = tt
calls-IsInk (c ∷ cs) h = (call-IsInk c h.0, calls-IsInk cs h.1)

blank : (n : ℕ) → trim_end (fill n []) ≡ []
unfolding fill trim_end
blank zero = refl
blank (suc n) = rw (blank n) refl

fill_back : (n : ℕ) (cs : Text) → All IsInk cs → length cs ≤ n → trim_end (fill n cs) ≡ cs
unfolding fill trim_end
fill_back n [] h fits = blank n
fill_back zero (c ∷ cs) h fits = absurd (omega arith)
fill_back (suc n) (c ∷ []) h fits = rw (blank n, h.0) refl
fill_back (suc n) (c ∷ d ∷ ds) h fits = rw (fill_back n (d ∷ ds) h.1 (omega arith)) refl

pub trim-fill :
    (n : ℕ) (c : ℕ) (cs : Text)
    → All IsInk (c ∷ cs)
    → suc (length cs) ≤ n
    → trim (fill n (c ∷ cs)) ≡ c ∷ cs
unfolding trim trim_start fill
trim-fill zero c cs h fits = absurd (omega arith)
trim-fill (suc n) c cs h fits = rw h.0 (fill_back (suc n) (c ∷ cs) h fits)

-- Behind the last digit stand capitals only.
area_tail :
    (i : ℕ) (cs : Text) → All IsCallChar cs → area_from i cs ≡ 0 → length cs ≡ count is_upper cs
unfolding area_from count
area_tail i [] h e = refl
area_tail i (c ∷ cs) h e = ground (arith, h.0, area_tail (suc i) cs h.1)

area_low : (i : ℕ) (cs : Text) → area_from i cs ≢ 0 → i < area_from i cs
unfolding area_from
area_low i [] h = absurd (h refl)
area_low i (c ∷ cs) h = ground (arith, area_low (suc i) cs)

-- With its last digit at place `k`, a text is that digit, what is before it and the capitals behind.
area_length :
    (i k : ℕ) (cs : Text)
    → All IsCallChar cs
    → area_from i cs ≡ suc (i + k)
    → length cs ≤ suc k + count is_upper (drop (suc k) cs)
unfolding area_from
area_length i k [] h e = omega arith
area_length i zero (c ∷ cs) h e =
    let tail : area_from (suc i) cs ≡ 0 = ground (arith, area_low (suc i) cs) in
    let same : length cs ≡ count is_upper cs = area_tail (suc i) cs h.1 tail in omega arith
area_length i (suc k) (c ∷ cs) h e =
    let later : area_from (suc i) cs ≡ suc (suc i + k) = ground arith in
    let rest : length cs ≤ suc k + count is_upper (drop (suc k) cs) =
      area_length (suc i) k cs h.1 later in
    omega arith

-- A standard call has its area digit second or third, and at most three characters behind it.
pub standard-length :
    (c : ℕ) (cs : Text)
    → All IsCallChar (c ∷ cs)
    → is_standard (c ∷ cs) ≡ true
    → ((area (c ∷ cs) ≡ 2) × (length cs ≤ 4)) ⊎ ((area (c ∷ cs) ≡ 3) × (length cs ≤ 5))
unfolding is_standard area
standard-length c cs h standard =
    let a : ℕ = area_from 1 cs in
    let low : 2 ≤ a = ground arith in
    let high : a ≤ 3 = ground arith in
    let few : count is_upper (drop a (c ∷ cs)) ≤ 3 = ground arith in
    elim (Bool-cases (a == 2)) [
      | inl same ↦
          let two : a ≡ 2 = ground arith in
          let behind : count is_upper (drop 2 (c ∷ cs)) ≤ 3 = rw two at few in
          let all : length cs ≤ suc 0 + count is_upper (drop (suc 0) cs) =
            area_length 1 0 cs h.1 (omega arith) in
          inl (two, omega arith)
      | inr other ↦
          let three : a ≡ 3 = ground arith in
          let behind : count is_upper (drop 3 (c ∷ cs)) ≤ 3 = rw three at few in
          let all : length cs ≤ suc 1 + count is_upper (drop (suc 1) cs) =
            area_length 1 1 cs h.1 (omega arith) in
          inr (three, omega arith)
    ]

-- The field of a standard call, without its blanks, is the call.
pub trim-field_of :
    (call : Text) → All IsCallChar call → is_standard call ≡ true → trim (field_of call) ≡ call
unfolding field_of
trim-field_of [] h standard = unfold area fill trim trim_start trim_end in refl
trim-field_of (c ∷ cs) h standard = elim (standard-length c cs h standard) [
  | inl (two, short) ↦
      rw two
        (unfold fill trim trim_start in trim-fill 5 c cs (calls-IsInk (c ∷ cs) h) (omega arith))
  | inr (three, short) ↦ rw three (trim-fill 6 c cs (calls-IsInk (c ∷ cs) h) (omega arith))
]
