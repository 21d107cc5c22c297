-- ===== src/Framing/Pack28/RoundTrip.antt =====
-- A callsign, through its 28 bits and back.
use omnimodem.Base.{
  none_ne_some, ℕ, suc, ◌+◌, ◌-◌, ◌/◌, ◌%◌, ◌^◌, ◌<◌, ◌≤◌, ◌≡◌, refl, ap, ◌∙◌, Bool, true, false,
  not, [], ◌∷◌, Option, none, some, ltb, ◌==◌, if◌then◌else◌, length, get_or, All, arith, inl, inr,
  Bool-cases,
}
use omnimodem.Base.Text.{Text, codes, text_eq}
use omnimodem.Base.Text.Laws.{text_eq_sound}
use omnimodem.Base.Text.Words.{trim}
use omnimodem.Framing.Pack28.Shape.{IsCallChar, trim-field_of}
use omnimodem.Framing.Pack28.{
  a1_table, a2_table, a3_table, a4_table, ntokens, max22, idx_from, idx, all_alphanumeric, area,
  is_standard, fill, field_of, combine, pack_field, pack28, unpack_token, unpack_field, unpack28,
  ◌>>=◌,
}

-- A character that is found in a table stands at the place that is reported.
idx_from_lem :
    (i : ℕ) (tab : Text) (c p : ℕ)
    → idx_from i tab c ≡ some p
    → (k : ℕ) × (p ≡ i + k) × (k < length tab) × (get_or tab k 0 ≡ c)
unfolding idx_from
idx_from_lem i [] c p h = absurd (none_ne_some h)
idx_from_lem i (t ∷ tab) c p h = elim (Bool-cases (t == c)) [
  | inl here ↦ (0, ground (arith, here, h), omega arith, ground (arith, here))
  | inr later ↦
      let (k, e, fits, found) = idx_from_lem (suc i) tab c p (rw later at h) in
      (suc k, omega arith, omega arith, found)
]

idx_lem : (tab : Text) (c p : ℕ) → idx tab c ≡ some p → (p < length tab) × (get_or tab p 0 ≡ c)
unfolding idx
idx_lem tab c p h =
    let (k, e, fits, found) = idx_from_lem 0 tab c p h in
    let same : p ≡ k = omega arith in rw same (fits, found)

bind_some :
    {A B : Type 0} (o : Option A) (f : A → Option B) (b : B)
    → (o >>= f) ≡ some b
    → (a : A) × (o ≡ some a) × (f a ≡ some b)
bind_some none f b h = absurd (none_ne_some h)
bind_some (some a) f b h = (a, refl, h)

radix :
    (i1 i2 i3 i4 i5 i6 : ℕ)
    → i1 < 37
    → i2 < 36
    → i3 < 10
    → i4 < 27
    → i5 < 27
    → i6 < 27
    → let n = combine i1 i2 i3 i4 i5 i6 in
      (n / 27 / 27 / 27 / 10 / 36 % 37 ≡ i1)
      × (n / 27 / 27 / 27 / 10 % 36 ≡ i2)
      × (n / 27 / 27 / 27 % 10 ≡ i3)
      × (n / 27 / 27 % 27 ≡ i4)
      × (n / 27 % 27 ≡ i5)
      × (n % 27 ≡ i6)
radix i1 i2 i3 i4 i5 i6 h1 h2 h3 h4 h5 h6 =
    (omega arith, omega arith, omega arith, omega arith, omega arith, omega arith)

-- What six characters are packed into: in the range of standard calls, and they are read back.
pack_field_lem :
    (field : Text) (n : ℕ)
    → pack_field field ≡ some n
    → (ntokens + max22 ≤ n)
      × (n < 2 ^ 28)
      × (unpack_field (n - ntokens - max22)
          ≡ get_or field 0 0
            ∷ get_or field 1 0
            ∷ get_or field 2 0
            ∷ get_or field 3 0
            ∷ get_or field 4 0
            ∷ get_or field 5 0
            ∷ [])
unfolding pack_field unpack_field
pack_field_lem field n h =
    let (i1, e1, h1) = bind_some (idx a1_table (get_or field 0 0)) _ n h in
    let (i2, e2, h2) = bind_some (idx a2_table (get_or field 1 0)) _ n h1 in
    let (i3, e3, h3) = bind_some (idx a3_table (get_or field 2 0)) _ n h2 in
    let (i4, e4, h4) = bind_some (idx a4_table (get_or field 3 0)) _ n h3 in
    let (i5, e5, h5) = bind_some (idx a4_table (get_or field 4 0)) _ n h4 in
    let (i6, e6, h6) = bind_some (idx a4_table (get_or field 5 0)) _ n h5 in
    let (b1, t1) = idx_lem a1_table (get_or field 0 0) i1 e1 in
    let (b2, t2) = idx_lem a2_table (get_or field 1 0) i2 e2 in
    let (b3, t3) = idx_lem a3_table (get_or field 2 0) i3 e3 in
    let (b4, t4) = idx_lem a4_table (get_or field 3 0) i4 e4 in
    let (b5, t5) = idx_lem a4_table (get_or field 4 0) i5 e5 in
    let (b6, t6) = idx_lem a4_table (get_or field 5 0) i6 e6 in
    let value : (combine i1 i2 i3 i4 i5 i6 + ntokens + max22) % 2 ^ 28 ≡ n = cc in
    let x : n - ntokens - max22 ≡ combine i1 i2 i3 i4 i5 i6 = omega arith in
    let (r1, r2, r3, r4, r5, r6) = radix i1 i2 i3 i4 i5 i6 b1 b2 b3 b4 b5 b6 in
    (omega arith, omega arith, rw (x, r1, r2, r3, r4, r5, r6, t1, t2, t3, t4, t5, t6) refl)

six :
    (cs : Text)
    → get_or (fill 6 cs) 0 0
        ∷ get_or (fill 6 cs) 1 0
        ∷ get_or (fill 6 cs) 2 0
        ∷ get_or (fill 6 cs) 3 0
        ∷ get_or (fill 6 cs) 4 0
        ∷ get_or (fill 6 cs) 5 0
        ∷ []
      ≡ fill 6 cs
unfolding fill
six [] = refl
six (a ∷ []) = refl
six (a ∷ b ∷ []) = refl
six (a ∷ b ∷ c ∷ []) = refl
six (a ∷ b ∷ c ∷ d ∷ []) = refl
six (a ∷ b ∷ c ∷ d ∷ e ∷ []) = refl
six (a ∷ b ∷ c ∷ d ∷ e ∷ f ∷ rest) = refl

guarded :
    (b : Bool) (o : Option ℕ) (n : ℕ)
    → (if not b then none else o) ≡ some n
    → (b ≡ true) × (o ≡ some n)
guarded true o n h = (refl, h)
guarded false o n h = absurd (none_ne_some h)

token_back :
    (name call : Text) (k n : ℕ)
    → unpack28 k ≡ some name
    → k < 2 ^ 28
    → text_eq call name ≡ true
    → some k ≡ some n
    → (n < 2 ^ 28) × (unpack28 n ≡ some call)
token_back name call k n back fits same packed =
    let number : k ≡ n = cc in (omega arith, rw (← number, text_eq_sound call name same) back)

standard_back :
    (call : Text) (n : ℕ)
    → All IsCallChar call
    → is_standard call ≡ true
    → pack_field (field_of call) ≡ some n
    → (n < 2 ^ 28) × (unpack28 n ≡ some call)
unfolding unpack28
standard_back call n h standard packed =
    let (low, high, back) = pack_field_lem (field_of call) n packed in
    let whole : unpack_field (n - ntokens - max22) ≡ field_of call =
      back ∙ (unfold field_of in six (if area call == 2 then b' ' ∷ call else call)) in
    let not_token : ltb n ntokens ≡ false = ground arith in
    let not_hashed : ltb n (ntokens + max22) ≡ false = ground arith in
    (
      high,
      rw (not_token, not_hashed)
          (ap (λ t. some (trim t)) whole ∙ ap some (trim-field_of call h standard)),
    )

-- Every text of digits and capitals that is packed, a token or a standard call, fits in 28 bits
-- and is unpacked to itself.
pub unpack28-pack28 :
    (call : Text) (n : ℕ)
    → All IsCallChar call
    → pack28 call ≡ some n
    → (n < 2 ^ 28) × (unpack28 n ≡ some call)
unfolding pack28 unpack28
unpack28-pack28 call n h packed = elim (Bool-cases (text_eq call (codes "DE"))) [
  | inl de ↦
      token_back (codes "DE") call 0 n (unfold unpack_token in refl) (omega arith) de
        (rw de at packed)
  | inr no_de ↦ elim (Bool-cases (text_eq call (codes "QRZ"))) [
    | inl qrz ↦
        token_back (codes "QRZ") call 1 n (unfold unpack_token in refl) (omega arith) qrz
          (rw (no_de, qrz) at packed)
    | inr no_qrz ↦ elim (Bool-cases (text_eq call (codes "CQ"))) [
      | inl cq ↦
          token_back (codes "CQ") call 2 n (unfold unpack_token in refl) (omega arith) cq
            (rw (no_de, no_qrz, cq) at packed)
      | inr no_cq ↦
          let (alnum, checked) =
            guarded (all_alphanumeric call) _ n (rw (no_de, no_qrz, no_cq) at packed) in
          let (standard, packed_field) = guarded (is_standard call) _ n checked in
          standard_back call n h standard packed_field
    ]
  ]
]
