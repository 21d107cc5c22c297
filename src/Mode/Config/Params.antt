-- ===== src/Mode/Config/Params.antt =====
-- Parameter lists, written and read.
use omnimodem.Base.{
  else_true, ℕ, ◌≡◌, ◌≢◌, refl, ◌∙◌, ap, Bool, true, false, List, [], ◌∷◌, ◌++◌, some, All, arith,
  if◌then◌else◌, inl, inr, ◌==◌, ◌⊎◌,
}
use omnimodem.Base.Text.{Text, decimal}
use omnimodem.Base.Text.Laws.{Lacks, split_once-append, decimal-IsDigit, IsDigit-Lacks, IsDigit}
use omnimodem.Base.Text.Words.{
  split, trim, is_whitespace, IsInk, trim-ink, split-Lacks, split-append,
}
use omnimodem.Mode.Config.{param, params, parse_params}

-- A text that stands unchanged as a value: no comma, and nothing to trim.
pub record IsValue (v : Text) : Type 0 where
  pub no_comma : Lacks b',' v
  pub trimmed : trim v ≡ v

-- A key of the source: neither separator, and nothing to trim.
pub record IsKey (k : Text) : Type 0 where
  pub no_comma : Lacks b',' k
  pub no_equals : Lacks b'=' k
  pub trimmed : trim k ≡ k

pair-Lacks : (k v : Text) → Lacks b',' k → Lacks b',' v → Lacks b',' (k ++ (b'=' ∷ v))
pair-Lacks [] v hk hv = ((λ e. omega arith), hv)
pair-Lacks (c ∷ cs) v hk hv = (hk.0, pair-Lacks cs v hk.1 hv)

param-pair :
    (k v : Text) (rest : List (Text × Text))
    → IsKey k
    → IsValue v
    → param (k ++ (b'=' ∷ v)) rest ≡ (k, v) ∷ rest
unfolding param
param-pair k v rest hk hv =
    rw (split_once-append b'=' k v hk.no_equals, param, hk.trimmed, hv.trimmed) refl

pub params_last :
    (k v : Text) → IsKey k → IsValue v → parse_params (some (k ++ (b'=' ∷ v))) ≡ (k, v) ∷ []
unfolding parse_params params
params_last k v hk hv =
    rw (split-Lacks b',' (k ++ (b'=' ∷ v)) (pair-Lacks k v hk.no_comma hv.no_comma), params)
      (param-pair k v [] hk hv)

pub params_cons :
    (k v rest : Text)
    → IsKey k
    → IsValue v
    → parse_params (some (k ++ (b'=' ∷ (v ++ (b',' ∷ rest))))) ≡ (k, v) ∷ parse_params (some rest)
unfolding parse_params params
params_cons k v rest hk hv =
    ap (λ t. params (split b',' t)) (regroup k v rest)
    ∙ rw (split-append b',' (k ++ (b'=' ∷ v)) rest (pair-Lacks k v hk.no_comma hv.no_comma), params)
        (param-pair k v (params (split b',' rest)) hk hv)
  where
    regroup :
        (k v rest : Text) → k ++ (b'=' ∷ (v ++ (b',' ∷ rest))) ≡ (k ++ (b'=' ∷ v)) ++ (b',' ∷ rest)
    regroup [] v rest = refl
    regroup (c ∷ cs) v rest = ap (λ t. c ∷ t) (regroup cs v rest)

IsDigit-IsInk : (text : Text) → All IsDigit text → All IsInk text
IsDigit-IsInk [] h = tt
IsDigit-IsInk (c ∷ cs) h = (ground arith, IsDigit-IsInk cs h.1)

pub decimal-IsValue : (n : ℕ) → IsValue (decimal n)
decimal-IsValue n = record {
  no_comma = IsDigit-Lacks b',' (decimal n) (inl (omega arith)) (decimal-IsDigit n);
  trimmed = trim-ink (decimal n) (IsDigit-IsInk (decimal n) (decimal-IsDigit n));
}

-- Neither separator, and no white space.
unfoldable pub is_plain : Text → Bool
is_plain [] = true
is_plain (c ∷ cs) =
    if is_whitespace c
    then false
    else if c == b','
    then false
    else if c == b'='
    then false
    else is_plain cs

plain-IsInk : (text : Text) → is_plain text ≡ true → All IsInk text
unfolding is_plain
plain-IsInk [] h = tt
plain-IsInk (c ∷ cs) h =
    let (ink, h1) = else_true (is_whitespace c) h in
    let (no_comma, h2) = else_true (c == b',') h1 in
    (ink, plain-IsInk cs (else_true (c == b'=') h2).1)

plain-Lacks :
    (sep : ℕ) (text : Text) → (sep ≡ b',') ⊎ (sep ≡ b'=') → is_plain text ≡ true → Lacks sep text
unfolding is_plain
plain-Lacks sep [] w h = tt
plain-Lacks sep (c ∷ cs) w h =
    let (ink, h1) = else_true (is_whitespace c) h in
    let (no_comma, h2) = else_true (c == b',') h1 in
    let (no_equals, h3) = else_true (c == b'=') h2 in
    (differs sep c w no_comma no_equals, plain-Lacks sep cs w h3)
  where
    differs :
        (sep c : ℕ)
        → (sep ≡ b',') ⊎ (sep ≡ b'=')
        → (c == b',') ≡ false
        → (c == b'=') ≡ false
        → c ≢ sep
    differs sep c w h1 h2 = λ e. ground arith

pub plain-IsKey : (k : Text) → is_plain k ≡ true → IsKey k
plain-IsKey k h = record {
  no_comma = plain-Lacks b',' k (inl refl) h;
  no_equals = plain-Lacks b'=' k (inr refl) h;
  trimmed = trim-ink k (plain-IsInk k h);
}

pub plain-IsValue : (v : Text) → is_plain v ≡ true → IsValue v
plain-IsValue v h = record {
  no_comma = plain-Lacks b',' v (inl refl) h;
  trimmed = trim-ink v (plain-IsInk v h);
}
