-- ===== src/Entities/NameMap/Laws.antt =====
-- Laws of `HashMap<String, V>` as an association list without a key twice.
use private_poker.Prelude.{
  ℕ, ◌+◌, ◌≡◌, ◌≢◌, refl, String, false, str_eq, if◌then◌else◌, List, [], ◌∷◌, none, some, arith,
  eq_iff, sum_by,
}
use private_poker.Entities.NameMap.{lookup, contains_key, insert, remove}

module _ {ℓ} {V : Type ℓ} where
  -- No key twice, as in a `HashMap`.
  abbrev pub IsMap : List (String × V) → Type 0
  IsMap [] = Unit
  IsMap (e ∷ m) = (contains_key e.0 m ≡ false) × IsMap m

  pub lookup-contains_key :
      (k : String) (m : List (String × V)) → contains_key k m ≡ false → lookup k m ≡ none
  lookup-contains_key k [] h = refl
  lookup-contains_key k (e ∷ m) h = ground (arith, lookup-contains_key k m)

  pub contains_key-lookup :
      (k : String) (m : List (String × V)) → lookup k m ≡ none → contains_key k m ≡ false
  contains_key-lookup k [] h = refl
  contains_key-lookup k (e ∷ m) h = ground (arith, contains_key-lookup k m)

  pub contains_key-insert :
      (j k : String) (v : V) (m : List (String × V))
      → contains_key j m ≡ false
      → j ≢ k
      → contains_key j (insert k v m) ≡ false
  contains_key-insert j k v [] h ne = ground (arith, eq_iff j k)
  contains_key-insert j k v (e ∷ m) h ne =
      ground (arith, eq_iff j k, eq_iff k e.0, eq_iff j e.0, contains_key-insert j k v m)

  pub contains_key-remove :
      (j k : String) (m : List (String × V))
      → contains_key j m ≡ false
      → contains_key j (remove k m) ≡ false
  contains_key-remove j k [] h = refl
  contains_key-remove j k (e ∷ m) h =
      ground (arith, eq_iff j k, eq_iff k e.0, eq_iff j e.0, contains_key-remove j k m)

  -- A key that was removed is gone.
  pub contains_key-remove_self :
      (k : String) (m : List (String × V)) → IsMap m → contains_key k (remove k m) ≡ false
  contains_key-remove_self k [] h = refl
  contains_key-remove_self k (e ∷ m) h =
      ground (arith, eq_iff k e.0, contains_key-remove_self k m h.1)

  pub insert-IsMap : (k : String) (v : V) (m : List (String × V)) → IsMap m → IsMap (insert k v m)
  insert-IsMap k v [] h = (refl, tt)
  insert-IsMap k v (e ∷ m) h =
      ground
        (arith, eq_iff k e.0, eq_iff e.0 k, insert-IsMap k v m h.1, contains_key-insert e.0 k v m)

  pub remove-IsMap : (k : String) (m : List (String × V)) → IsMap m → IsMap (remove k m)
  remove-IsMap k [] h = tt
  remove-IsMap k (e ∷ m) h = ground (arith, remove-IsMap k m h.1, contains_key-remove e.0 k m)

  -- A new entry adds its weight, and an entry that is removed takes it away.
  pub sum_by-insert :
      (f : String × V → ℕ) (k : String) (v : V) (m : List (String × V))
      → contains_key k m ≡ false
      → sum_by f (insert k v m) ≡ sum_by f m + f (k, v)
  sum_by-insert f k v [] h = omega arith
  sum_by-insert f k v (e ∷ m) h = ground (arith, sum_by-insert f k v m)

  pub sum_by-remove :
      (f : String × V → ℕ) (k : String) (v : V) (m : List (String × V))
      → lookup k m ≡ some v
      → sum_by f (remove k m) + f (k, v) ≡ sum_by f m
  sum_by-remove f k v [] h = cc
  sum_by-remove f k v ((j, w) ∷ m) h = ground (arith, eq_iff k j, sum_by-remove f k v m)

  -- A lookup after an insertion, and after a removal.
  pub lookup-insert_name :
      (k j : String) (v : V) (m : List (String × V))
      → lookup j (insert k v m) ≡ (if str_eq j k then some v else lookup j m)
  lookup-insert_name k j v [] = refl
  lookup-insert_name k j v (e ∷ m) =
      ground (arith, eq_iff j k, eq_iff k e.0, eq_iff j e.0, lookup-insert_name k j v m)

  pub lookup-remove_name :
      (k j : String) (m : List (String × V))
      → IsMap m
      → lookup j (remove k m) ≡ (if str_eq j k then none else lookup j m)
  lookup-remove_name k j [] h = ground (arith, eq_iff j k)
  lookup-remove_name k j (e ∷ m) h = ground (
    arith,
    eq_iff j k,
    eq_iff k e.0,
    eq_iff j e.0,
    lookup-contains_key e.0 m h.0,
    lookup-remove_name k j m h.1,
  )
