-- ===== src/Adsb/Roster.antt =====
-- The roster of recently seen addresses, crates/dsp/src/modes/adsb/roster.rs. A `HashSet` is its
-- membership test: nothing of the source iterates over it.
mod Order
mod Recency
mod Tests
use omnimodem.Base.{
  ℕ, Bool, true, false, ◌||◌, List, [], ◌∷◌, ◌++◌, ◌==◌, Option, none, some, leb, if◌then◌else◌,
  length,
}

pub record IcaoRoster : Type 0 where
  pub cap : ℕ
  pub order : List ℕ
  pub set : ℕ → Bool

abbrev pub default_roster_cap : ℕ
default_roster_cap = 256

-- A capacity of zero is a panic, `none`.
unfoldable pub new_roster : ℕ → Option IcaoRoster
new_roster cap = if leb 1 cap then some record { cap = cap; order = []; set = λ a. false } else none

-- `order.remove(position)` of the first place that holds an address, if one does.
unfoldable pub remove_first : ℕ → List ℕ → List ℕ
remove_first icao [] = []
remove_first icao (a ∷ as') =
    let rest = remove_first icao as' in if a == icao then as' else a ∷ rest

abbrev pub add : ℕ → (ℕ → Bool) → ℕ → Bool
add icao set a = if a == icao then true else set a

abbrev pub discard : ℕ → (ℕ → Bool) → ℕ → Bool
discard icao set a = if a == icao then false else set a

-- `pop_front`, and the removal of what it gave from the set.
unfoldable pub evict : IcaoRoster → IcaoRoster
evict r = elim (r.order) [
  | [] ↦ r
  | old ∷ rest ↦ record r { order = rest; set = discard old r.set }
]

unfoldable pub note : ℕ → IcaoRoster → IcaoRoster
note icao r =
    if r.set icao
    then record r { order = remove_first icao r.order ++ (icao ∷ []) }
    else let room = if length r.order == r.cap then evict r else r in
      record room { order = room.order ++ (icao ∷ []); set = add icao room.set }

unfoldable pub contains : ℕ → IcaoRoster → Bool
contains icao r = r.set icao

unfoldable pub clear : IcaoRoster → IcaoRoster
clear r = record r { order = []; set = λ a. false }

unfoldable pub is_address_overlaid : ℕ → Bool
is_address_overlaid df = df == 0 || df == 4 || df == 5 || df == 16 || df == 20 || df == 21

-- The addresses of a stretch of the stream, noted one after another.
unfoldable pub note_all : List ℕ → IcaoRoster → IcaoRoster
note_all [] r = r
note_all (a ∷ as') r = note_all as' (note a r)
