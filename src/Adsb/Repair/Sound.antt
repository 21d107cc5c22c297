-- ===== src/Adsb/Repair/Sound.antt =====
-- The repair of one bit: its result, and the position it is found at.
use omnimodem.Base.{
  ℕ, zero, suc, ◌+◌, ◌*◌, ◌≤◌, ◌<◌, ◌≡◌, refl, ◌∙◌, sym, ap, ◌≢◌, Bool, true, false, List, none,
  some, if◌then◌else◌, bit_xor, arith, leb, ◌==◌, length, inl, inr, Bool-cases, Option-cases,
  ==_iff,
}
use omnimodem.Base.Bits.{bit_xor_self, bit_xor_comm, bit_xor-zero}
use omnimodem.Adsb.Crc.{checksum, single_bit_syndrome, find_syndrome, locate_single_bit_error}
use omnimodem.Adsb.Repair.{toggle, flip, repair_single_bit}
use omnimodem.Adsb.Repair.Flip.{length-toggle, checksum-toggle}

find_syndrome_sound :
    (left p residual nbits q : ℕ)
    → find_syndrome left p residual nbits ≡ some q
    → (single_bit_syndrome q nbits ≡ residual) × (q < p + left)
unfolding find_syndrome
find_syndrome_sound zero p residual nbits q e = cc
find_syndrome_sound (suc left) p residual nbits q e =
    elim (Bool-cases (single_bit_syndrome p nbits == residual)) [
      | inl here ↦
          let same : p ≡ q = ground (arith, rw here at e) in
          (
            rw (sym same) ((==_iff (single_bit_syndrome p nbits) residual).0 here),
            omega (arith, same),
          )
      | inr later ↦
          let (found, inside) = find_syndrome_sound left (p + 1) residual nbits q (rw later at e) in
          (found, omega arith)
    ]

find_syndrome_complete :
    (left p residual nbits q : ℕ)
    → p ≤ q
    → q < p + left
    → single_bit_syndrome q nbits ≡ residual
    → (r : ℕ) × (find_syndrome left p residual nbits ≡ some r)
unfolding find_syndrome
find_syndrome_complete zero p residual nbits q lo hi e = absurd (omega arith)
find_syndrome_complete (suc left) p residual nbits q lo hi e =
    elim (Bool-cases (single_bit_syndrome p nbits == residual)) [
      | inl here ↦ (p, rw here refl)
      | inr later ↦
          let passed : p ≢ q = λ s.
            let here : (single_bit_syndrome p nbits == residual) ≡ true =
              (==_iff (single_bit_syndrome p nbits) residual).1
                (ap (λ t. single_bit_syndrome t nbits) s ∙ e) in
            cc in
          let (r, f) =
            find_syndrome_complete left (p + 1) residual nbits q (omega (arith, passed))
              (omega arith) e in
          (r, rw later f)
    ]

locate_sound :
    (residual nbits q : ℕ)
    → locate_single_bit_error residual nbits ≡ some q
    → (single_bit_syndrome q nbits ≡ residual) × (q < nbits) × (residual ≢ 0)
unfolding locate_single_bit_error
locate_sound residual nbits q e = elim (Bool-cases (residual == 0)) [
  | inl clean ↦ cc (rw clean at e)
  | inr dirty ↦
      let (found, inside) = find_syndrome_sound nbits 0 residual nbits q (rw dirty at e) in
      (found, omega (arith, inside), λ zero_sum. ground (arith, zero_sum, dirty))
]

pub toggle_cancels :
    (frame : List ℕ) (q : ℕ)
    → single_bit_syndrome q (length frame * 8) ≡ checksum frame
    → checksum (toggle q frame) ≡ 0
toggle_cancels frame q e =
    checksum-toggle q frame ∙ ap (λ t. bit_xor (checksum frame) t) e ∙ bit_xor_self (checksum frame)

pub flip-toggle :
    (p : ℕ) (bytes : List ℕ) → p < length bytes * 8 → flip p bytes ≡ some (toggle p bytes)
unfolding flip
flip-toggle p bytes inside = ground arith

-- The repair by what is located.
none_located :
    (bytes : List ℕ)
    → locate_single_bit_error (checksum bytes) (length bytes * 8) ≡ none
    → repair_single_bit bytes ≡ some (false, bytes)
unfolding repair_single_bit
none_located bytes e = rw (e, repair_single_bit) refl

pub repaired :
    (bytes : List ℕ) (p : ℕ)
    → locate_single_bit_error (checksum bytes) (length bytes * 8) ≡ some p
    → repair_single_bit bytes ≡ some (if leb 5 p then (true, toggle p bytes) else (false, bytes))
unfolding repair_single_bit
repaired bytes p e =
    let (found, inside, dirty) = locate_sound (checksum bytes) (length bytes * 8) p e in
    elim (Bool-cases (leb 5 p)) [
      | inl far ↦ rw (e, repair_single_bit, far, flip-toggle p bytes inside) refl
      | inr near ↦ rw (e, repair_single_bit, near) refl
    ]

-- No position past the end is ever met.
pub repair_single_bit-returns :
    (bytes : List ℕ) → (r : Bool × List ℕ) × (repair_single_bit bytes ≡ some r)
repair_single_bit-returns bytes =
    elim (Option-cases (locate_single_bit_error (checksum bytes) (length bytes * 8))) [
      | inl e ↦ (_, none_located bytes e)
      | inr (p, e) ↦ (_, repaired bytes p e)
    ]

-- Whatever bytes were received: when a repair is reported, the frame did not check before, the
-- one bit that was flipped lies inside the frame and outside the format field of five bits, and the
-- frame now checksums to zero.
pub repair_single_bit-checksum :
    (bytes mended : List ℕ)
    → repair_single_bit bytes ≡ some (true, mended)
    → (checksum bytes ≢ 0)
      × (p : ℕ) × (5 ≤ p)
      × (p < length bytes * 8)
      × (flip p bytes ≡ some mended)
      × (checksum mended ≡ 0)
repair_single_bit-checksum bytes mended h =
    elim (Option-cases (locate_single_bit_error (checksum bytes) (length bytes * 8))) [
      | inl e ↦ cc (sym (none_located bytes e) ∙ h)
      | inr (p, e) ↦
          let (found, inside, dirty) = locate_sound (checksum bytes) (length bytes * 8) p e in
          elim (Bool-cases (leb 5 p)) [
            | inl far ↦
                let same : toggle p bytes ≡ mended =
                  cc (rw far at (sym (repaired bytes p e) ∙ h)) in
                (
                  dirty,
                  p,
                  ground arith,
                  inside,
                  flip-toggle p bytes inside ∙ ap (λ t. some t) same,
                  ap checksum (sym same) ∙ toggle_cancels bytes p found,
                )
            | inr near ↦ cc (rw near at (sym (repaired bytes p e) ∙ h))
          ]
    ]

-- A frame that checks is hit in one bit and then fails to check: a position is located, and with
-- that bit flipped the frame checks again.
pub locate_single_bit_error-toggle :
    (frame : List ℕ) (p : ℕ)
    → checksum frame ≡ 0
    → p < length frame * 8
    → checksum (toggle p frame) ≢ 0
    → (q : ℕ) × (locate_single_bit_error (checksum (toggle p frame)) (length frame * 8) ≡ some q)
      × (checksum (toggle q (toggle p frame)) ≡ 0)
unfolding locate_single_bit_error
locate_single_bit_error-toggle frame p clean inside dirty =
    let residual = checksum (toggle p frame) in
    let nbits = length frame * 8 in
    let syndrome : single_bit_syndrome p nbits ≡ residual = sym (
      checksum-toggle p frame
      ∙ ap (λ t. bit_xor t (single_bit_syndrome p nbits)) clean
      ∙ bit_xor_comm 0 (single_bit_syndrome p nbits)
      ∙ bit_xor-zero (single_bit_syndrome p nbits)) in
    let (q, found) =
      find_syndrome_complete nbits 0 residual nbits p (omega arith) (omega arith) syndrome in
    (
      q,
      ground arith,
      toggle_cancels (toggle p frame) q (
          ap (λ n. single_bit_syndrome q (n * 8)) (length-toggle p frame)
          ∙ (find_syndrome_sound nbits 0 residual nbits q found).0),
    )
