-- ===== src/Mode/Config/Back.antt =====
-- The modes with parameters, through their text and the parser.
use omnimodem.Base.{
  ℕ, ◌<◌, ◌^◌, ◌≡◌, refl, ◌∙◌, ap, Bool, true, false, ◌&&◌, List, [], ◌∷◌, ◌++◌, some, arith, inl,
  inr, Bool-cases,
}
use omnimodem.Base.Text.{Text, codes, text_eq, split_once, decimal}
use omnimodem.Base.Text.Laws.{
  text_eq_sound, split_once-append, split_once-Lacks, parse_uint-decimal,
}
use omnimodem.Base.Text.Words.{split}
use omnimodem.Mode.Labels.{is_label, is_fsq}
use omnimodem.Mode.Config.{
  Floats, ModeConfig, cw, rtty, fsq, olivia, fst4, js8, msk144, Arm, of_cw, of_rtty, of_fsq,
  of_fst4, of_js8, of_msk144, of_olivia, params, parse_params, value_of, num_of, flag_of, text_of,
  js8_of, js8_submodes, js8_submode, param, float_of, build, parse, show_bool,
}
use omnimodem.Mode.Config.Params.{
  IsValue, params_last, params_cons, decimal-IsValue, is_plain, plain-IsKey, plain-IsValue,
}
use omnimodem.Mode.Config.Arms.{Takes}
use omnimodem.Mode.Config.Arms.Tables.{
  cw-Takes, rtty-Takes, fst4-Takes, js8-Takes, msk144-Takes, olivia-Takes, fsq-Takes,
}
use omnimodem.Mode.Print.{to_mode_string, at_center}

-- What is documented of `f32`: a number is read back from its text, which stands as a value.
pub record FloatLaws (fl : Floats) : Type 0 where
  pub read-show : (x : fl.F) → fl.read (fl.show x) ≡ some x
  pub show-IsValue : (x : fl.F) → IsValue (fl.show x)

show_bool-IsValue : (b : Bool) → IsValue (show_bool b)
show_bool-IsValue true = plain-IsValue (codes "true") (unfold is_plain in refl)
show_bool-IsValue false = plain-IsValue (codes "false") (unfold is_plain in refl)

all_plain : List Text → Bool
all_plain [] = true
all_plain (l ∷ ls) = is_plain l && all_plain ls

all_plain_sound :
    (labels : List Text) (s : Text)
    → all_plain labels ≡ true
    → is_label labels s ≡ true
    → is_plain s ≡ true
unfolding all_plain is_label
all_plain_sound [] s h e = cc
all_plain_sound (l ∷ ls) s h e = elim (Bool-cases (text_eq l s)) [
  | inl here ↦ rw (← text_eq_sound l s here) (ground arith)
  | inr later ↦ all_plain_sound ls s (ground arith) (rw later at e)
]

-- A parameter, written by a literal of the source.
last :
    (k v : Text)
    → is_plain k ≡ true
    → IsValue v
    → parse_params (some (k ++ (b'=' ∷ v))) ≡ (k, v) ∷ []
last k v plain h = params_last k v (plain-IsKey k plain) h

next :
    (k v rest : Text)
    → is_plain k ≡ true
    → IsValue v
    → parse_params (some (k ++ (b'=' ∷ (v ++ (b',' ∷ rest))))) ≡ (k, v) ∷ parse_params (some rest)
next k v rest plain h = params_cons k v rest (plain-IsKey k plain) h

num_back :
    (k : Text) (d n : ℕ) (kv : List (Text × Text))
    → value_of k kv ≡ some (decimal n)
    → n < 2 ^ 16
    → num_of k d kv ≡ n
unfolding num_of
num_back k d n kv e h = rw (e, num_of, parse_uint-decimal 65535 n (omega arith) (omega arith)) refl

flag_back :
    (k : Text) (b : Bool) (kv : List (Text × Text))
    → value_of k kv ≡ some (show_bool b)
    → flag_of k kv ≡ b
unfolding flag_of text_eq
flag_back k true kv e = rw (e, flag_of) refl
flag_back k false kv e = rw (e, flag_of) refl

module _ (fl : Floats) (laws : FloatLaws fl) where
  parse_tail :
      (name tail : Text) (arm : Arm) (kv : List (Text × Text))
      → Takes arm name
      → parse_params (some tail) ≡ kv
      → parse fl (name ++ (b':' ∷ tail)) ≡ some (build fl arm name kv)
  unfolding parse
  parse_tail name tail arm kv (takes, no_colon) e =
      rw (split_once-append b':' name tail no_colon, parse, takes, e) refl

  pub parse_bare :
      (name : Text) (arm : Arm) → Takes arm name → parse fl name ≡ some (build fl arm name [])
  unfolding parse
  parse_bare name arm (takes, no_colon) =
      rw (split_once-Lacks b':' name no_colon, parse, takes)
        (unfold parse_params params split split_once param in refl)

  float_back :
      (k : Text) (d x : fl.F) (kv : List (Text × Text))
      → value_of k kv ≡ some (fl.show x)
      → float_of fl k d kv ≡ x
  unfolding float_of
  float_back k d x kv e = rw (e, float_of, laws.read-show x) refl

  at_center-parse :
      (name : Text) (c : fl.F) (arm : Arm)
      → Takes arm name
      → parse fl (at_center fl name c) ≡ some (build fl arm name ((codes "center", fl.show c) ∷ []))
  at_center-parse name c arm takes =
      parse_tail name (codes "center=" ++ fl.show c) arm _ takes
        (last (codes "center") (fl.show c) (unfold is_plain in refl) (laws.show-IsValue c))

  -- A mode of a label and a center.
  pub centered :
      (name : Text) (c d : fl.F) (arm : Arm) (make : fl.F → ModeConfig fl.F)
      → Takes arm name
      → build fl arm name ((codes "center", fl.show c) ∷ [])
        ≡ make (float_of fl (codes "center") d ((codes "center", fl.show c) ∷ []))
      → parse fl (at_center fl name c) ≡ some (make c)
  unfolding value_of text_eq
  centered name c d arm make takes built =
      at_center-parse name c arm takes
      ∙ ap some (
          built ∙ ap make (float_back (codes "center") d c ((codes "center", fl.show c) ∷ []) refl))

  pub cw_back :
      (wpm : ℕ) (tone : fl.F)
      → wpm < 2 ^ 16
      → parse fl (to_mode_string fl (cw wpm tone)) ≡ some (cw wpm tone)
  unfolding to_mode_string build value_of text_eq is_plain
  cw_back wpm tone h =
      let kv : List (Text × Text) =
        (codes "wpm", decimal wpm) ∷ (codes "tone", fl.show tone) ∷ [] in
      parse_tail (codes "cw") _ of_cw kv cw-Takes (
        next (codes "wpm") (decimal wpm) (codes "tone=" ++ fl.show tone) refl (decimal-IsValue wpm)
        ∙ ap (λ kv. (codes "wpm", decimal wpm) ∷ kv)
            (last (codes "tone") (fl.show tone) refl (laws.show-IsValue tone)))
      ∙ (λ i. some (
          cw (num_back (codes "wpm") 20 wpm kv refl h i)
            (float_back (codes "tone") (fl.literal (codes "700.0")) tone kv refl i)))

  pub rtty_back :
      (baud shift c : fl.F) (reverse : Bool)
      → parse fl (to_mode_string fl (rtty baud shift c reverse)) ≡ some (rtty baud shift c reverse)
  unfolding to_mode_string build value_of text_eq is_plain
  rtty_back baud shift c reverse =
      let kv3 : List (Text × Text) = (codes "reverse", show_bool reverse) ∷ [] in
      let kv2 : List (Text × Text) = (codes "center", fl.show c) ∷ kv3 in
      let kv1 : List (Text × Text) = (codes "shift", fl.show shift) ∷ kv2 in
      let kv : List (Text × Text) = (codes "baud", fl.show baud) ∷ kv1 in
      let t3 : Text = codes "reverse=" ++ show_bool reverse in
      let t2 : Text = codes "center=" ++ (fl.show c ++ (b',' ∷ t3)) in
      let t1 : Text = codes "shift=" ++ (fl.show shift ++ (b',' ∷ t2)) in
      parse_tail (codes "rtty") (codes "baud=" ++ (fl.show baud ++ (b',' ∷ t1))) of_rtty kv
        rtty-Takes
        (next (codes "baud") (fl.show baud) t1 refl (laws.show-IsValue baud)
          ∙ ap (λ kv. (codes "baud", fl.show baud) ∷ kv)
              (next (codes "shift") (fl.show shift) t2 refl (laws.show-IsValue shift)
                ∙ ap (λ kv. (codes "shift", fl.show shift) ∷ kv)
                    (next (codes "center") (fl.show c) t3 refl (laws.show-IsValue c)
                      ∙ ap (λ kv. (codes "center", fl.show c) ∷ kv)
                          (last (codes "reverse") (show_bool reverse) refl
                            (show_bool-IsValue reverse)))))
      ∙ (λ i. some (
          rtty (float_back (codes "baud") (fl.literal (codes "45.45")) baud kv refl i)
            (float_back (codes "shift") (fl.literal (codes "170.0")) shift kv refl i)
            (float_back (codes "center") (fl.literal (codes "2210.0")) c kv refl i)
            (flag_back (codes "reverse") reverse kv refl i)))

  pub fsq_back :
      (speed : Text) (c : fl.F) (mycall : Text) (directed : Bool)
      → is_fsq speed ≡ true
      → IsValue mycall
      → parse fl (to_mode_string fl (fsq speed c mycall directed))
        ≡ some (fsq speed c mycall directed)
  unfolding to_mode_string build value_of text_of text_eq is_plain
  fsq_back speed c mycall directed h value =
      let kv2 : List (Text × Text) = (codes "directed", show_bool directed) ∷ [] in
      let kv1 : List (Text × Text) = (codes "mycall", mycall) ∷ kv2 in
      let kv : List (Text × Text) = (codes "center", fl.show c) ∷ kv1 in
      let t2 : Text = codes "directed=" ++ show_bool directed in
      let t1 : Text = codes "mycall=" ++ (mycall ++ (b',' ∷ t2)) in
      parse_tail speed (codes "center=" ++ (fl.show c ++ (b',' ∷ t1))) of_fsq kv (fsq-Takes speed h)
        (next (codes "center") (fl.show c) t1 refl (laws.show-IsValue c)
          ∙ ap (λ kv. (codes "center", fl.show c) ∷ kv)
              (next (codes "mycall") mycall t2 refl value
                ∙ ap (λ kv. (codes "mycall", mycall) ∷ kv)
                    (last (codes "directed") (show_bool directed) refl
                      (show_bool-IsValue directed))))
      ∙ (λ i. some (
          fsq speed (float_back (codes "center") (fl.literal (codes "1500.0")) c kv refl i) mycall
            (flag_back (codes "directed") directed kv refl i)))

  pub olivia_back :
      (tones bandwidth_hz : ℕ)
      → tones < 2 ^ 16
      → bandwidth_hz < 2 ^ 16
      → parse fl (to_mode_string fl (olivia tones bandwidth_hz)) ≡ some (olivia tones bandwidth_hz)
  unfolding to_mode_string build value_of text_eq is_plain
  olivia_back tones bandwidth_hz ht hb =
      let kv : List (Text × Text) =
        (codes "tones", decimal tones) ∷ (codes "bw", decimal bandwidth_hz) ∷ [] in
      parse_tail (codes "olivia") _ of_olivia kv olivia-Takes (
        next (codes "tones") (decimal tones) (codes "bw=" ++ decimal bandwidth_hz) refl
          (decimal-IsValue tones)
        ∙ ap (λ kv. (codes "tones", decimal tones) ∷ kv)
            (last (codes "bw") (decimal bandwidth_hz) refl (decimal-IsValue bandwidth_hz)))
      ∙ (λ i. some (
          olivia (num_back (codes "tones") 32 tones kv refl ht i)
            (num_back (codes "bw") 1000 bandwidth_hz kv refl hb i)))

  pub fst4_back :
      (tr_s : ℕ) → tr_s < 2 ^ 16 → parse fl (to_mode_string fl (fst4 tr_s)) ≡ some (fst4 tr_s)
  unfolding to_mode_string build value_of text_eq is_plain
  fst4_back tr_s h =
      parse_tail (codes "fst4") _ of_fst4 ((codes "tr", decimal tr_s) ∷ []) fst4-Takes
        (last (codes "tr") (decimal tr_s) refl (decimal-IsValue tr_s))
      ∙ ap (λ n. some (fst4 n))
          (num_back (codes "tr") 15 tr_s ((codes "tr", decimal tr_s) ∷ []) refl h)

  pub msk144_back :
      (freq_hz : fl.F) → parse fl (to_mode_string fl (msk144 freq_hz)) ≡ some (msk144 freq_hz)
  unfolding to_mode_string build value_of text_eq is_plain
  msk144_back freq_hz =
      parse_tail (codes "msk144") _ of_msk144 ((codes "freq", fl.show freq_hz) ∷ []) msk144-Takes
        (last (codes "freq") (fl.show freq_hz) refl (laws.show-IsValue freq_hz))
      ∙ ap (λ x. some (msk144 x))
          (float_back (codes "freq") (fl.literal (codes "1500.0")) freq_hz
            ((codes "freq", fl.show freq_hz) ∷ []) refl)

  pub js8_back :
      (submode : Text)
      → is_label js8_submodes submode ≡ true
      → parse fl (to_mode_string fl (js8 submode)) ≡ some (js8 submode)
  unfolding to_mode_string build value_of text_eq is_plain
  js8_back submode h =
      parse_tail (codes "js8") _ of_js8 ((codes "sub", submode) ∷ []) js8-Takes (
        last (codes "sub") submode refl (
          plain-IsValue submode
            (all_plain_sound js8_submodes submode (unfold all_plain is_plain in refl) h)))
      ∙ ap (λ s. some (js8 s)) (unfold js8_of js8_submode value_of text_eq in rw h refl)
