-- ===== src/Adsb/Roster/Tests.antt =====
-- The roster at a concrete stream of addresses.
use omnimodem.Base.{◌<◌, ◌≡◌, refl, true, false, some, [], ◌∷◌, arith}
use omnimodem.Adsb.Roster.{
  IcaoRoster, new_roster, note, contains, note_all, is_address_overlaid, remove_first, evict, clear,
}
use omnimodem.Adsb.Roster.Order.{IsRoster, mem, unique, note-IsRoster}
use omnimodem.Adsb.Roster.Recency.{contains-note}

abbrev empty : IcaoRoster
empty = record { cap = 2; order = []; set = λ a. false }

empty-IsRoster : IsRoster empty
unfolding mem unique
empty-IsRoster = record {
  same = λ x. refl;
  once = refl;
  bounded = omega arith;
  some_room = omega arith;
}

new_is_empty : new_roster 2 ≡ some empty
unfolding new_roster
new_is_empty = refl

-- The third address evicts the first.
evicted : contains 7 (note_all (7 ∷ 8 ∷ 9 ∷ []) empty) ≡ false
unfolding contains note_all note evict remove_first
evicted = refl

cleared : (clear (note 7 empty)).order ≡ []
unfolding clear note
cleared = refl

overlaid : is_address_overlaid 20 ≡ true
unfolding is_address_overlaid
overlaid = refl

note-IsRoster_example : IsRoster (note 7 (note 8 empty))
note-IsRoster_example = note-IsRoster 7 (note 8 empty) (note-IsRoster 8 empty empty-IsRoster)

contains-note_example : contains 7 (note_all (8 ∷ []) (note 7 (note 6 (note 5 empty)))) ≡ true
contains-note_example =
    contains-note 7 (8 ∷ []) (note 6 (note 5 empty))
      (note-IsRoster 6 (note 5 empty) (note-IsRoster 5 empty empty-IsRoster)) small
  where
    small : 1 < (note 6 (note 5 empty)).cap
    small = unfold note evict in omega arith
