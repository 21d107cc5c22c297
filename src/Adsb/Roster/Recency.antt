-- ===== src/Adsb/Roster/Recency.antt =====
-- How long an address stays on the roster.
use omnimodem.Base.{
  ℕ, ◌+◌, ◌≤◌, ◌<◌, ◌≡◌, ◌∙◌, sym, Bool, true, false, List, [], ◌∷◌, ◌++◌, arith, ◌==◌,
  if◌then◌else◌, length, length-append, inl, inr, Bool-cases, ==_iff,
}
use omnimodem.Adsb.Roster.{IcaoRoster, remove_first, evict, note, contains, note_all}
use omnimodem.Adsb.Roster.Order.{
  mem, unique, mem-append, mem-remove_first, IsRoster, evict-mem, note-IsRoster, evict-cap,
}

-- How many addresses were noted after one: those behind it in the order.
unfoldable pub age : ℕ → List ℕ → ℕ
age x [] = 0
age x (a ∷ as') = if x == a then length as' else age x as'

age-append_kept : (x a : ℕ) (xs : List ℕ) → mem x xs ≡ true → age x (xs ++ (a ∷ [])) ≡ age x xs + 1
unfolding age mem
age-append_kept x a [] h = cc
age-append_kept x a (b ∷ bs) h = ground (arith, age-append_kept x a bs, length-append bs (a ∷ []))

age-append_new : (x : ℕ) (xs : List ℕ) → mem x xs ≡ false → age x (xs ++ (x ∷ [])) ≡ 0
unfolding age mem
age-append_new x [] h = ground arith
age-append_new x (b ∷ bs) h = ground (arith, age-append_new x bs)

length-remove_first_le : (a : ℕ) (xs : List ℕ) → length (remove_first a xs) ≤ length xs
unfolding remove_first
length-remove_first_le a [] = omega arith
length-remove_first_le a (b ∷ bs) = ground (arith, length-remove_first_le a bs)

age-remove_first : (x a : ℕ) (xs : List ℕ) → (x == a) ≡ false → age x (remove_first a xs) ≤ age x xs
unfolding age remove_first
age-remove_first x a [] ne = omega arith
age-remove_first x a (b ∷ bs) ne =
    ground (arith, age-remove_first x a bs, length-remove_first_le a bs)

-- An address that is younger than the oldest survives an eviction.
evict_fields :
    (x cap : ℕ) (set : ℕ → Bool) (order : List ℕ)
    → mem x order ≡ true
    → age x order + 1 < length order
    → (mem x (evict (record { cap = cap; order = order; set = set })).order ≡ true)
      × (age x (evict (record { cap = cap; order = order; set = set })).order ≡ age x order)
unfolding evict mem age
evict_fields x cap set [] h young = cc
evict_fields x cap set (old ∷ rest) h young = (ground arith, ground arith)

-- An address that stays, and grows older by at most one note.
abbrev Stays : ℕ → List ℕ → List ℕ → Type 0
Stays x before after = (mem x after ≡ true) × (age x after ≤ age x before + 1)

push-Stays : (x a : ℕ) (xs : List ℕ) → mem x xs ≡ true → Stays x xs (xs ++ (a ∷ []))
push-Stays x a xs h = (ground (arith, mem-append x a xs), omega (arith, age-append_kept x a xs h))

refresh-Stays :
    (x a : ℕ) (xs : List ℕ)
    → unique xs ≡ true
    → mem x xs ≡ true
    → Stays x xs (remove_first a xs ++ (a ∷ []))
refresh-Stays x a xs u h = elim (Bool-cases (x == a)) [
  | inl itself ↦
      let same = (==_iff x a).0 itself in
      rw (sym same) (
        ground (arith, mem-append x x (remove_first x xs)),
        omega (
          arith,
          age-append_new x (remove_first x xs) (ground (arith, mem-remove_first x x xs u)),
        ),
      )
  | inr other ↦
      let kept : mem x (remove_first a xs) ≡ true = ground (arith, mem-remove_first x a xs u) in
      let (there, older) = push-Stays x a (remove_first a xs) kept in
      (there, omega (arith, older, age-remove_first x a xs other))
]

note-Stays :
    (x a : ℕ) (r : IcaoRoster)
    → IsRoster r
    → mem x r.order ≡ true
    → age x r.order + 1 < r.cap
    → Stays x r.order (note a r).order
unfolding note
note-Stays x a r h there young = elim (Bool-cases (r.set a)) [
  | inl known ↦ rw known (refresh-Stays x a r.order h.once there)
  | inr fresh ↦ elim (Bool-cases (length r.order == r.cap)) [
    | inl full ↦
        let (kept, age_kept) = evict_fields x r.cap r.set r.order there (ground arith) in
        let (there', older) = push-Stays x a (evict r).order kept in
        rw (fresh, full) (there', omega (arith, older, age_kept))
    | inr roomy ↦ rw (fresh, roomy) (push-Stays x a r.order there)
  ]
]

note-cap : (a : ℕ) (r : IcaoRoster) → (note a r).cap ≡ r.cap
unfolding note
note-cap a r = ground (arith, evict-cap r)

note_all_keeps :
    (x : ℕ) (later : List ℕ) (r : IcaoRoster)
    → IsRoster r
    → mem x r.order ≡ true
    → age x r.order + length later < r.cap
    → contains x (note_all later r) ≡ true
unfolding note_all contains
note_all_keeps x [] r h there young = h.same x ∙ there
note_all_keeps x (a ∷ later) r h there young =
    let (there', older) = note-Stays x a r h there (omega arith) in
    note_all_keeps x later (note a r) (note-IsRoster a r h) there'
      (omega (arith, older, note-cap a r))

note_fresh :
    (x : ℕ) (r : IcaoRoster)
    → IsRoster r
    → (mem x (note x r).order ≡ true) × (age x (note x r).order ≡ 0)
unfolding note
note_fresh x r h = elim (Bool-cases (r.set x)) [
  | inl known ↦ rw known (
    ground (arith, mem-append x x (remove_first x r.order)),
    age-append_new x (remove_first x r.order) (ground (arith, mem-remove_first x x r.order h.once)),
  )
  | inr fresh ↦ elim (Bool-cases (length r.order == r.cap)) [
    | inl full ↦
        rw (fresh, full)
          (
            ground (arith, mem-append x x (evict r).order),
            age-append_new x (evict r).order (evict-mem x r h fresh),
          )
    | inr roomy ↦
        rw (fresh, roomy)
          (
            ground (arith, mem-append x x r.order),
            age-append_new x r.order (sym (h.same x) ∙ fresh),
          )
  ]
]

-- An address that was noted is still on the roster after any further notes that are fewer than
-- the capacity, whichever addresses they are of.
pub contains-note :
    (x : ℕ) (later : List ℕ) (r : IcaoRoster)
    → IsRoster r
    → length later < r.cap
    → contains x (note_all later (note x r)) ≡ true
contains-note x later r h few =
    let (there, young) = note_fresh x r h in
    note_all_keeps x later (note x r) (note-IsRoster x r h) there
      (omega (arith, young, note-cap x r))
