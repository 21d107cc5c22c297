-- ===== src/Adsb/Roster/Order.antt =====
-- The order of a roster and its set.
use omnimodem.Base.{
  ℕ, ◌+◌, ◌≤◌, ◌<◌, ◌≡◌, refl, ◌∙◌, sym, Bool, true, false, not, ◌&&◌, ◌||◌, List, [], ◌∷◌, ◌++◌,
  arith, ◌==◌, length, length-append, inl, inr, Bool-cases,
}
use omnimodem.Adsb.Roster.{IcaoRoster, remove_first, add, evict, note}

unfoldable pub mem : ℕ → List ℕ → Bool
mem x [] = false
mem x (a ∷ as') = x == a || mem x as'

unfoldable pub unique : List ℕ → Bool
unique [] = true
unique (a ∷ as') = not (mem a as') && unique as'

pub mem-append : (x a : ℕ) (xs : List ℕ) → mem x (xs ++ (a ∷ [])) ≡ (mem x xs || x == a)
unfolding mem
mem-append x a [] = ground arith
mem-append x a (b ∷ bs) = ground (arith, mem-append x a bs)

unique-append :
    (a : ℕ) (xs : List ℕ) → mem a xs ≡ false → unique xs ≡ true → unique (xs ++ (a ∷ [])) ≡ true
unfolding unique mem
unique-append a [] h u = refl
unique-append a (b ∷ bs) h u = ground (arith, mem-append b a bs, unique-append a bs)

pub mem-remove_first :
    (x a : ℕ) (xs : List ℕ)
    → unique xs ≡ true
    → mem x (remove_first a xs) ≡ (mem x xs && not (x == a))
unfolding mem unique remove_first
mem-remove_first x a [] u = refl
mem-remove_first x a (b ∷ bs) u = ground (arith, mem-remove_first x a bs)

unique-remove_first : (a : ℕ) (xs : List ℕ) → unique xs ≡ true → unique (remove_first a xs) ≡ true
unfolding unique remove_first
unique-remove_first a [] u = refl
unique-remove_first a (b ∷ bs) u = ground (arith, unique-remove_first a bs, mem-remove_first b a bs)

length-remove_first :
    (a : ℕ) (xs : List ℕ) → mem a xs ≡ true → length (remove_first a xs) + 1 ≡ length xs
unfolding mem remove_first
length-remove_first a [] h = cc
length-remove_first a (b ∷ bs) h = ground (arith, length-remove_first a bs)

pub record IsRoster (r : IcaoRoster) : Type 0 where
  pub same : (x : ℕ) → r.set x ≡ mem x r.order
  pub once : unique r.order ≡ true
  pub bounded : length r.order ≤ r.cap
  pub some_room : 1 ≤ r.cap

module _ (cap : ℕ) (set : ℕ → Bool) where
  evict_fields :
      (order : List ℕ)
      → IsRoster (record { cap = cap; order = order; set = set })
      → IsRoster (evict (record { cap = cap; order = order; set = set }))
  unfolding evict
  evict_fields [] h = h
  evict_fields (old ∷ rest) h = record {
    same = λ x. unfold mem unique in ground (arith, h.same x, h.once);
    once = unfold unique in ground (arith, h.once);
    bounded = omega (arith, h.bounded);
    some_room = h.some_room;
  }

  evict_fields-cap :
      (order : List ℕ) → (evict (record { cap = cap; order = order; set = set })).cap ≡ cap
  unfolding evict
  evict_fields-cap [] = refl
  evict_fields-cap (old ∷ rest) = refl

  evict_room :
      (order : List ℕ)
      → 1 ≤ cap
      → length order ≡ cap
      → length (evict (record { cap = cap; order = order; set = set })).order < cap
  unfolding evict
  evict_room [] room full = absurd (omega arith)
  evict_room (old ∷ rest) room full = omega arith

  evict_keeps_out :
      (order : List ℕ) (a : ℕ)
      → set a ≡ false
      → (evict (record { cap = cap; order = order; set = set })).set a ≡ false
  unfolding evict
  evict_keeps_out [] a out = out
  evict_keeps_out (old ∷ rest) a out = ground arith

pub evict-cap : (r : IcaoRoster) → (evict r).cap ≡ r.cap
evict-cap r = evict_fields-cap r.cap r.set r.order

-- An address that is not in the set is not in the order that an eviction leaves.
pub evict-mem :
    (a : ℕ) (r : IcaoRoster) → IsRoster r → r.set a ≡ false → mem a (evict r).order ≡ false
evict-mem a r h out =
    sym ((evict_fields r.cap r.set r.order h).same a) ∙ evict_keeps_out r.cap r.set r.order a out

push-IsRoster :
    (a : ℕ) (r : IcaoRoster)
    → IsRoster r
    → r.set a ≡ false
    → length r.order < r.cap
    → IsRoster (record r { order = r.order ++ (a ∷ []); set = add a r.set })
push-IsRoster a r h out room = record {
  same = λ x. ground (arith, h.same x, mem-append x a r.order);
  once = unique-append a r.order (sym (h.same a) ∙ out) h.once;
  bounded = omega (arith, length-append r.order (a ∷ []));
  some_room = h.some_room;
}

-- A note keeps the order and the set together, every address once, and the number of addresses
-- within the capacity, whether it refreshes an address, adds one, or evicts the oldest first.
pub note-IsRoster : (a : ℕ) (r : IcaoRoster) → IsRoster r → IsRoster (note a r)
unfolding note
note-IsRoster a r h = elim (Bool-cases (r.set a)) [
  | inl known ↦
      let present = sym (h.same a) ∙ known in
      rw known (record {
        same = λ x. ground (
          arith,
          h.same x,
          h.same a,
          mem-append x a (remove_first a r.order),
          mem-remove_first x a r.order h.once,
        );
        once =
            unique-append a (remove_first a r.order)
              (ground (arith, mem-remove_first a a r.order h.once))
              (unique-remove_first a r.order h.once);
        bounded = omega (
          arith,
          length-append (remove_first a r.order) (a ∷ []),
          length-remove_first a r.order present,
          h.bounded,
        );
        some_room = h.some_room;
      })
  | inr fresh ↦ elim (Bool-cases (length r.order == r.cap)) [
    | inl full ↦
        rw (fresh, full)
          (push-IsRoster a (evict r) (evict_fields r.cap r.set r.order h)
            (evict_keeps_out r.cap r.set r.order a fresh)
            (omega (arith, evict_room r.cap r.set r.order h.some_room (ground arith), evict-cap r)))
    | inr roomy ↦ rw (fresh, roomy) (push-IsRoster a r h fresh (ground (arith, h.bounded)))
  ]
]
