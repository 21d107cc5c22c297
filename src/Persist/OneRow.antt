-- ===== src/Persist/OneRow.antt =====
-- A database for tests: it has room for one row, and may refuse to write.
use omnimodem.Base.{
  none_ne_some, ℕ, ◌^◌, ◌≡◌, ◌≢◌, refl, sym, ap, ◌∙◌, Bool, true, false, ◌&&◌, List, [], ◌∷◌,
  Option, none, some, if◌then◌else◌, arith, ltb, ◌==◌, All, IsIn, inl, inr, Bool-cases,
}
use omnimodem.Base.Int.{ℤ, pos, negsuc}
use omnimodem.Persist.{Row, Database, DatabaseLaws}

pub record OneRow : Type 0 where
  pub row : Option Row
  pub writable : Bool

unfoldable pub same_id : ℤ → ℤ → Bool
same_id (pos a) (pos b) = a == b
same_id (negsuc a) (negsuc b) = a == b
same_id _ _ = false

unfoldable pub find : Option Row → ℤ → Option Row
find none i = none
find (some r) i = if same_id r.id i then some r else none

unfoldable pub room : Option Row → ℤ → Bool
room none i = true
room (some r) i = same_id r.id i

unfoldable pub write : Row → OneRow → Bool × OneRow
write r c = if c.writable && room c.row r.id then (true, record c { row = some r }) else (false, c)

abbrev pub all_rows : Option Row → List Row
all_rows none = []
all_rows (some r) = r ∷ []

unfoldable pub read_u32 : ℤ → Option ℕ
read_u32 (pos n) = if ltb n (2 ^ 32) then some n else none
read_u32 (negsuc n) = none

abbrev pub one_row : Database
one_row = record {
  Conn = OneRow;
  execute = write;
  query = λ c. some (all_rows c.row);
  get_u32 = read_u32;
}

pub same_id_refl : (i : ℤ) → same_id i i ≡ true
unfolding same_id
same_id_refl (pos n) = ground arith
same_id_refl (negsuc n) = ground arith

same_id_sound : (i j : ℤ) → same_id i j ≡ true → i ≡ j
unfolding same_id
same_id_sound (pos a) (pos b) h = ap pos (ground arith)
same_id_sound (pos a) (negsuc b) h = cc
same_id_sound (negsuc a) (pos b) h = cc
same_id_sound (negsuc a) (negsuc b) h = ap negsuc (ground arith)

pub write_ok :
    (r : Row) (c : OneRow)
    → (write r c).0 ≡ true
    → ((write r c).1.row ≡ some r) × (room c.row r.id ≡ true)
unfolding write
write_ok r c ok = (ground arith, ground arith)

pub write_failed : (r : Row) (c : OneRow) → (write r c).0 ≡ false → (write r c).1.row ≡ c.row
unfolding write
write_failed r c failed = ground arith

pub differs : (i j : ℤ) → i ≢ j → same_id i j ≡ false
differs i j ne = elim (Bool-cases (same_id i j)) [
  | inl same ↦ absurd (ne (same_id_sound i j same))
  | inr other ↦ other
]

pub others :
    (row : Option Row) (r : Row) (i : ℤ) → room row r.id ≡ true → i ≢ r.id → find row i ≡ none
unfolding room find
others none r i h ne = refl
others (some q) r i h ne =
    let same : q.id ≡ r.id = same_id_sound q.id r.id h in
    rw (differs q.id i (λ e. ne (sym e ∙ same))) refl

pub found : (row : Option Row) (i : ℤ) (r : Row) → find row i ≡ some r → IsIn r (all_rows row)
unfolding find
found none i r e = absurd (none_ne_some e)
found (some q) i r e = inl (ground (arith, e))

pub stored : (row : Option Row) → All (λ r. find row r.id ≡ some r) (all_rows row)
unfolding find
stored none = tt
stored (some r) = (rw (same_id_refl r.id) refl, tt)

unfoldable pub one_row_laws : DatabaseLaws one_row
unfolding find read_u32
one_row_laws = record {
  row_of = λ c i. find c.row i;
  upserted = λ r c ok. rw ((write_ok r c ok).0, find, same_id_refl r.id) refl;
  others_kept = λ r c i ok ne.
      rw
        (
          (write_ok r c ok).0,
          find,
          differs r.id i (λ e. ne (sym e)),
          others c.row r i (write_ok r c ok).1 ne,
        )
        refl;
  failed_kept = λ r c i failed. ap (λ row. find row i) (write_failed r c failed);
  rows_stored = λ c rows e. let same : all_rows c.row ≡ rows = cc in rw⁻¹ same (stored c.row);
  rows_complete =
      λ c rows i r e h. let same : all_rows c.row ≡ rows = cc in rw⁻¹ same (found c.row i r h);
  get_u32-pos = λ n h. ground arith;
}
