-- ===== src/Entities/NameMap.antt =====
-- `HashMap<String, V>`, the spectators, as an association list.
pub mod Laws
use private_poker.Prelude.{
  String, Bool, true, false, List, [], ◌∷◌, Option, none, some, str_eq, if◌then◌else◌,
}

module _ {ℓ} {V : Type ℓ} where
  abbrev pub lookup : String → List (String × V) → Option V
  lookup k [] = none
  lookup k (e ∷ m) = if str_eq k e.0 then some e.1 else lookup k m

  abbrev pub contains_key : String → List (String × V) → Bool
  contains_key k [] = false
  contains_key k (e ∷ m) = if str_eq k e.0 then true else contains_key k m

  abbrev pub insert : String → V → List (String × V) → List (String × V)
  insert k v [] = (k, v) ∷ []
  insert k v (e ∷ m) = if str_eq k e.0 then (k, v) ∷ m else e ∷ insert k v m

  abbrev pub remove : String → List (String × V) → List (String × V)
  remove k [] = []
  remove k (e ∷ m) = if str_eq k e.0 then m else e ∷ remove k m
