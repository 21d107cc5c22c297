-- ===== src/Framing/Hdlc/Deframe.antt =====
-- Lemmas on the rounds of the HDLC deframer.
use omnimodem.Base.{
  ℕ, zero, suc, ◌+◌, ◌-◌, ◌/◌, ◌≤◌, ◌<◌, ◌≡◌, refl, ap, ◌∙◌, List, [], ◌∷◌, ◌++◌, append_assoc,
  append-nil, arith, length, length-append, take-append, All, take,
}
use native.Mathlib.Decide.{dec_lt}
use omnimodem.Framing.Hdlc.{Scan, scan_bit, scan, flag, byte_bits, stuff, finish_frame}
use omnimodem.Framing.Hdlc.Window.{
  Run, Run-lt, inside, Run-one, scan_one, scan_zero, scan_stuffed, shift_zero,
}

abbrev pub IsBit : ℕ → Type 0
IsBit b = b < 2

abbrev pub IsByte : ℕ → Type 0
IsByte b = b < 256

pub scan-append : (s : Scan) (xs ys : List ℕ) → scan s (xs ++ ys) ≡ scan (scan s xs) ys
unfolding scan
scan-append s [] ys = refl
scan-append s (x ∷ xs) ys = scan-append (scan_bit s x) xs ys

-- The deframer inside a frame: `bits` have come in since the flag, and fewer than five ones last.
pub record Reads (bits : List ℕ) (fs : List (List ℕ)) (s : Scan) : Type 0 where
  pub w : ℕ
  pub f : ℕ
  pub o : ℕ
  pub few : o < 5
  pub run : Run o w
  pub full : 8 ≤ f
  pub is_inside : s ≡ inside w f o bits fs

after_zero :
    (w f o : ℕ) (p rest : List ℕ) (fs : List (List ℕ))
    → o < 5
    → Run o w
    → scan (inside w f o p fs) (0 ∷ rest) ≡ scan (inside (w / 2) (f + 1) 0 (p ++ (0 ∷ [])) fs) rest
unfolding scan
after_zero w f o p rest fs lt h = ap (λ s. scan s rest) (scan_zero o w f p fs lt h)

Run-few : (o w : ℕ) → Run o w → o < 8
Run-few zero w h = omega arith
Run-few (suc zero) w h = omega arith
Run-few (suc (suc zero)) w h = omega arith
Run-few (suc (suc (suc zero))) w h = omega arith
Run-few (suc (suc (suc (suc zero)))) w h = omega arith
Run-few (suc (suc (suc (suc (suc zero))))) w h = omega arith
Run-few (suc (suc (suc (suc (suc (suc zero)))))) w h = omega arith
Run-few (suc (suc (suc (suc (suc (suc (suc o))))))) w h = absurd h

after_one :
    (w f o : ℕ) (p rest : List ℕ) (fs : List (List ℕ))
    → Run o w
    → scan (inside w f o p fs) (1 ∷ rest)
      ≡ scan (inside (w / 2 + 128) (f + 1) (o + 1) (p ++ (1 ∷ [])) fs) rest
unfolding scan
after_one w f o p rest fs h = ap (λ s. scan s rest) (scan_one o w f p fs (Run-few o w h) h)

after_five :
    (w f o : ℕ) (p rest : List ℕ) (fs : List (List ℕ))
    → o ≡ 5
    → Run o w
    → scan (inside w f o p fs) (0 ∷ rest) ≡ scan (inside (w / 2) (f + 1) 0 p fs) rest
unfolding scan
after_five w f o p rest fs e h = ap (λ s. scan s rest) (scan_stuffed o w f p fs e h)

stuff-one_few : (o : ℕ) (bits : List ℕ) → o < 4 → stuff o (1 ∷ bits) ≡ 1 ∷ stuff (o + 1) bits
unfolding stuff
stuff-one_few o bits h = ground arith

stuff-one_five : (o : ℕ) (bits : List ℕ) → o ≡ 4 → stuff o (1 ∷ bits) ≡ 1 ∷ 0 ∷ stuff 0 bits
unfolding stuff
stuff-one_five o bits h = ground arith

stuff-zero : (o : ℕ) (bits : List ℕ) → stuff o (0 ∷ bits) ≡ 0 ∷ stuff 0 bits
unfolding stuff
stuff-zero o bits = refl

Run-zero : (o w : ℕ) → Run o w → Run 0 (w / 2)
Run-zero o w h = omega (arith, Run-lt o w h)

-- Stuffed bits between flags are read back without the stuffing.
pub scan-stuff :
    (bits p : List ℕ) (w f o : ℕ) (fs : List (List ℕ))
    → All IsBit bits
    → o < 5
    → Run o w
    → 8 ≤ f
    → Reads (p ++ bits) fs (scan (inside w f o p fs) (stuff o bits))
scan-stuff [] p w f o fs hb lt h full = record {
  w = w;
  f = f;
  o = o;
  few = lt;
  run = h;
  full = full;
  is_inside = rw append-nil (unfold scan stuff in refl);
}
scan-stuff (zero ∷ bits) p w f o fs hb lt h full =
    rw
      (stuff-zero o bits, after_zero w f o p (stuff 0 bits) fs lt h, ← append_assoc p (0 ∷ []) bits)
      (scan-stuff bits (p ++ (0 ∷ [])) (w / 2) (f + 1) 0 fs hb.1 (omega arith) (Run-zero o w h)
        (omega arith))
scan-stuff (suc zero ∷ bits) p w f o fs hb lt h full = elim (dec_lt o 4) [
  | yes few ↦
      rw
        (
          stuff-one_few o bits few,
          after_one w f o p (stuff (o + 1) bits) fs h,
          ← append_assoc p (1 ∷ []) bits,
        )
        (scan-stuff bits (p ++ (1 ∷ [])) (w / 2 + 128) (f + 1) (o + 1) fs hb.1 (omega arith)
          (Run-one o w (omega arith) h) (omega arith))
  | no many ↦
      let w1 : ℕ = w / 2 + 128 in
      let run1 : Run (o + 1) w1 = Run-one o w (omega arith) h in
      rw
        (
          stuff-one_five o bits (omega arith),
          after_one w f o p (0 ∷ stuff 0 bits) fs h,
          after_five w1 (f + 1) (o + 1) (p ++ (1 ∷ [])) (stuff 0 bits) fs (omega arith) run1,
          ← append_assoc p (1 ∷ []) bits,
        )
        (scan-stuff bits (p ++ (1 ∷ [])) (w1 / 2) (f + 1 + 1) 0 fs hb.1 (omega arith)
          (Run-zero (o + 1) w1 run1) (omega arith))
]
scan-stuff (suc (suc b) ∷ bits) p w f o fs hb lt h full = absurd (omega arith)

abbrev seven : List ℕ
seven = 0 ∷ 1 ∷ 1 ∷ 1 ∷ 1 ∷ 1 ∷ 1 ∷ []

take_back : (p : List ℕ) → take (length (p ++ seven) - 7) (p ++ seven) ≡ p
take_back p = rw (length-append p seven) (rw (back (length p)) (take-append p seven))
  where
    back : (n : ℕ) → n + 7 - 7 ≡ n
    back n = omega arith

-- The last bit of a flag closes the frame, without the seven bits that the flag left behind.
scan_close :
    (w f n : ℕ) (p q : List ℕ) (fs : List (List ℕ))
    → w / 2 ≡ 126
    → 8 ≤ f
    → n ≡ f + 7
    → q ≡ p ++ seven
    → scan_bit (inside w n 6 q fs) 0 ≡ inside 126 (f + 8) 0 [] (finish_frame p fs)
unfolding scan_bit
scan_close w f n p q fs h full en eq =
    rw (shift_zero w, eq) (ground (arith, length-append p seven, take_back p))

-- A whole flag that follows fewer than five ones closes the frame.
pub scan-flag :
    (w f o : ℕ) (p rest : List ℕ) (fs : List (List ℕ))
    → o < 5
    → Run o w
    → 8 ≤ f
    → scan (inside w f o p fs) (byte_bits flag ++ rest)
      ≡ scan (inside 126 (f + 8) 0 [] (finish_frame p fs)) rest
scan-flag w f o p rest fs lt h full =
    let one : List ℕ = 1 ∷ [] in
    let p1 = p ++ (0 ∷ []) in
    let p2 = p1 ++ one in
    let p3 = p2 ++ one in
    let p4 = p3 ++ one in
    let p5 = p4 ++ one in
    let p6 = p5 ++ one in
    let p7 = p6 ++ one in
    let w1 = w / 2 in
    let w2 = w1 / 2 + 128 in
    let w3 = w2 / 2 + 128 in
    let w4 = w3 / 2 + 128 in
    let w5 = w4 / 2 + 128 in
    let w6 = w5 / 2 + 128 in
    let w7 = w6 / 2 + 128 in
    let r1 : Run 0 w1 = Run-zero o w h in
    let r2 : Run 1 w2 = Run-one 0 w1 (omega arith) r1 in
    let r3 : Run 2 w3 = Run-one 1 w2 (omega arith) r2 in
    let r4 : Run 3 w4 = Run-one 2 w3 (omega arith) r3 in
    let r5 : Run 4 w5 = Run-one 3 w4 (omega arith) r4 in
    let r6 : Run 5 w6 = Run-one 4 w5 (omega arith) r5 in
    let r7 : Run 6 w7 = Run-one 5 w6 (omega arith) r6 in
    let last : List ℕ = 0 ∷ rest in
    after_zero w f o p (1 ∷ 1 ∷ 1 ∷ 1 ∷ 1 ∷ 1 ∷ last) fs lt h
    ∙ after_one w1 (f + 1) 0 p1 (1 ∷ 1 ∷ 1 ∷ 1 ∷ 1 ∷ last) fs r1
    ∙ after_one w2 (f + 1 + 1) 1 p2 (1 ∷ 1 ∷ 1 ∷ 1 ∷ last) fs r2
    ∙ after_one w3 (f + 1 + 1 + 1) 2 p3 (1 ∷ 1 ∷ 1 ∷ last) fs r3
    ∙ after_one w4 (f + 1 + 1 + 1 + 1) 3 p4 (1 ∷ 1 ∷ last) fs r4
    ∙ after_one w5 (f + 1 + 1 + 1 + 1 + 1) 4 p5 (1 ∷ last) fs r5
    ∙ after_one w6 (f + 1 + 1 + 1 + 1 + 1 + 1) 5 p6 last fs r6
    ∙ (let closing =
          scan_close w7 f (f + 1 + 1 + 1 + 1 + 1 + 1 + 1) p p7 fs r7 full (omega arith)
            (simp append_assoc) in
        unfold scan in ap (λ s. scan s rest) closing)
