-- ===== src/Base/Store.antt =====
-- A keyed store as an association list: what the program's hash maps and sets do.
use mathlib.Core.Path.{◌≡◌, refl, ◌∙◌}
use mathlib.Core.Logic.{ite, if_pos, if_neg}
use mathlib.Core.List.{List, [], ◌∷◌}
use mathlib.Core.Option.{Option, none, some}
use native.Mathlib.Omega.{arith}

module _ {ℓ} {K V : Type ℓ} (same : Discrete K) where
  unfoldable pub get : K → List (K × V) → Option V
  get k [] = none
  get k ((j, v) ∷ m) = ite (same j k) (some v) (get k m)

  unfoldable pub insert : K → V → List (K × V) → List (K × V)
  insert k v [] = (k, v) ∷ []
  insert k v ((j, w) ∷ m) = ite (same j k) ((k, v) ∷ m) ((j, w) ∷ insert k v m)

  unfoldable pub remove : K → List (K × V) → List (K × V)
  remove k [] = []
  remove k ((j, w) ∷ m) = ite (same j k) (remove k m) ((j, w) ∷ remove k m)

  pub get-insert :
      (k j : K) (v : V) (m : List (K × V))
      → get j (insert k v m) ≡ ite (same k j) (some v) (get j m)
  unfolding get insert
  get-insert k j v [] = refl
  get-insert k j v ((i, w) ∷ m) = ground (arith, get-insert k j v m)

  pub get-remove : (k j : K) (m : List (K × V)) → get j (remove k m) ≡ ite (same k j) none (get j m)
  unfolding get remove
  get-remove k j [] = ground arith
  get-remove k j ((i, w) ∷ m) = ground (arith, get-remove k j m)

  pub get-insert_self :
      (id : K) (v : V) (keyed : List (K × V)) → get id (insert id v keyed) ≡ some v
  get-insert_self id v keyed = get-insert id id v keyed ∙ if_pos (same id id) refl _ _

  pub get-insert_ne :
      (j id : K) (v : V) (keyed : List (K × V))
      → ¬ (j ≡ id)
      → get id (insert j v keyed) ≡ get id keyed
  get-insert_ne j id v keyed ne = get-insert j id v keyed ∙ if_neg (same j id) ne _ _

  pub get-remove_self : (id : K) (keyed : List (K × V)) → get id (remove id keyed) ≡ none
  get-remove_self id keyed = get-remove id id keyed ∙ if_pos (same id id) refl _ _

  pub get-remove_ne :
      (j id : K) (keyed : List (K × V)) → ¬ (j ≡ id) → get id (remove j keyed) ≡ get id keyed
  get-remove_ne j id keyed ne = get-remove j id keyed ∙ if_neg (same j id) ne _ _
