-- ===== src/Net/TokenMap.antt =====
-- `BTreeMap<Token, V>` and `BTreeSet<Token>` as lists in ascending order of the tokens.
use Prim.Native.Nat.{compare, Ordering}
use mathlib.Core.Option.{some-injective}
use private_poker.Prelude.{
  Option-cases, inl, inr, ℕ, ◌≡◌, ◌<◌, refl, Bool, true, false, List, [], ◌∷◌, Option, none, some,
  ◌==◌, if◌then◌else◌, max, arith,
}

-- A `mio::Token`, which wraps a `usize`.
abbrev pub Token : Type 0
Token = ℕ

abbrev pub TokenMap {ℓ} : Type ℓ → Type ℓ
TokenMap V = List (Token × V)

abbrev pub is_some {ℓ} : {A : Type ℓ} → Option A → Bool
is_some none = false
is_some (some _) = true

module _ {ℓ} {V : Type ℓ} where
  unfoldable pub lookup : Token → TokenMap V → Option V
  lookup k [] = none
  lookup k (e ∷ m) = if k == e.0 then some e.1 else lookup k m

  abbrev pub contains_key : Token → TokenMap V → Bool
  contains_key k m = is_some (lookup k m)

  unfoldable pub insert : Token → V → TokenMap V → TokenMap V
  insert k v [] = (k, v) ∷ []
  insert k v (e ∷ m) =
      let rest = insert k v m in
      elim (compare k e.0) [
        | Ordering.lt ↦ (k, v) ∷ e ∷ m
        | Ordering.eq ↦ (k, v) ∷ m
        | Ordering.gt ↦ e ∷ rest
      ]

  unfoldable pub remove : Token → TokenMap V → TokenMap V
  remove k [] = []
  remove k (e ∷ m) = let rest = remove k m in if k == e.0 then rest else e ∷ rest

  -- The key of `last_key_value`: the largest one.
  unfoldable pub last_key : TokenMap V → Option Token
  last_key [] = none
  last_key (e ∷ m) =
      let rest = last_key m in elim rest [ none ↦ some e.0 | some k ↦ some (max e.0 k) ]

  pub lookup-insert :
      (k j : Token) (v : V) (m : TokenMap V)
      → lookup j (insert k v m) ≡ (if j == k then some v else lookup j m)
  unfolding lookup insert
  lookup-insert k j v [] = refl
  lookup-insert k j v (e ∷ m) = ground (arith, lookup-insert k j v m)

  pub lookup-remove :
      (k j : Token) (m : TokenMap V) → lookup j (remove k m) ≡ (if j == k then none else lookup j m)
  unfolding lookup remove
  lookup-remove k j [] = ground arith
  lookup-remove k j (e ∷ m) = ground (arith, lookup-remove k j m)

  pub lookup_empty : (j : Token) (m : TokenMap V) → last_key m ≡ none → lookup j m ≡ none
  unfolding lookup last_key
  lookup_empty j [] e = refl
  lookup_empty j (x ∷ m) e = elim (Option-cases (last_key m)) [
    | inl nothing ↦ cc (rw nothing at e)
    | inr (k, last) ↦ cc (rw last at e)
  ]

  -- The last key is a key.
  pub last_key-lookup : (k : Token) (m : TokenMap V) → last_key m ≡ some k → contains_key k m ≡ true
  unfolding lookup last_key
  last_key-lookup k [] e = cc
  last_key-lookup k (x ∷ m) e = elim (Option-cases (last_key m)) [
    | inl nothing ↦ let top : x.0 ≡ k = some-injective _ _ (rw nothing at e) in ground arith
    | inr (k', last) ↦
        let top : max x.0 k' ≡ k = some-injective _ _ (rw last at e) in
        ground (arith, last_key-lookup k' m last)
  ]

  -- No key lies above the last one.
  pub lookup_above :
      (k j : Token) (m : TokenMap V) → last_key m ≡ some k → k < j → lookup j m ≡ none
  unfolding lookup last_key
  lookup_above k j [] e h = refl
  lookup_above k j (x ∷ m) e h = elim (Option-cases (last_key m)) [
    | inl nothing ↦
        let top : x.0 ≡ k = some-injective _ _ (rw nothing at e) in
        ground (arith, lookup_empty j m nothing)
    | inr (k', last) ↦
        let top : max x.0 k' ≡ k = some-injective _ _ (rw last at e) in
        let below : lookup j m ≡ none = lookup_above k' j m last (omega (arith, top, h)) in
        ground (arith, below)
  ]

abbrev pub TokenSet : Type 0
TokenSet = List Token

unfoldable pub contains : Token → TokenSet → Bool
contains k [] = false
contains k (x ∷ xs) = if k == x then true else contains k xs

unfoldable pub insert_token : Token → TokenSet → TokenSet
insert_token k [] = k ∷ []
insert_token k (x ∷ xs) =
    let rest = insert_token k xs in
    elim (compare k x) [ Ordering.lt ↦ k ∷ x ∷ xs | Ordering.eq ↦ x ∷ xs | Ordering.gt ↦ x ∷ rest ]

pub contains-insert_token :
    (k j : Token) (s : TokenSet)
    → contains j (insert_token k s) ≡ (if j == k then true else contains j s)
unfolding contains insert_token
contains-insert_token k j [] = refl
contains-insert_token k j (x ∷ xs) = ground (arith, contains-insert_token k j xs)

-- All above a token; and a set in ascending order.
abbrev pub Above : Token → TokenSet → Type 0
Above k [] = Unit
Above k (x ∷ xs) = (k < x) × Above k xs

abbrev pub IsAscending : TokenSet → Type 0
IsAscending [] = Unit
IsAscending (x ∷ xs) = Above x xs × IsAscending xs

below-Above : (j k : Token) (s : TokenSet) → j < k → Above k s → Above j s
below-Above j k [] h a = tt
below-Above j k (x ∷ xs) h a = (omega (arith, h, a.0), below-Above j k xs h a.1)

insert_token-Above : (j k : Token) (s : TokenSet) → j < k → Above j s → Above j (insert_token k s)
unfolding insert_token
insert_token-Above j k [] h a = (h, tt)
insert_token-Above j k (x ∷ xs) h a = ground (arith, insert_token-Above j k xs h a.1)

pub insert_token-IsAscending :
    (k : Token) (s : TokenSet) → IsAscending s → IsAscending (insert_token k s)
unfolding insert_token
insert_token-IsAscending k [] a = (tt, tt)
insert_token-IsAscending k (x ∷ xs) a =
    ground (arith, insert_token-IsAscending k xs a.1, insert_token-Above x k xs, below-Above k x xs)

-- The first token of a set is not among the others.
pub contains-Above : (k : Token) (s : TokenSet) → Above k s → contains k s ≡ false
unfolding contains
contains-Above k [] a = refl
contains-Above k (x ∷ xs) a = ground (arith, contains-Above k xs a.1)

pub some_of_is_some {ℓ} : {A : Type ℓ} (o : Option A) → is_some o ≡ true → (a : A) × (o ≡ some a)
some_of_is_some none e = cc
some_of_is_some (some a) e = (a, refl)

pub none_of_is_some {ℓ} : {A : Type ℓ} (o : Option A) → is_some o ≡ false → o ≡ none
none_of_is_some none e = refl
none_of_is_some (some a) e = cc

-- A map in ascending order of its keys.
abbrev pub keys {ℓ} : {V : Type ℓ} → TokenMap V → TokenSet
keys [] = []
keys (e ∷ m) = e.0 ∷ keys m

abbrev pub IsOrdered {ℓ} : {V : Type ℓ} → TokenMap V → Type 0
IsOrdered m = IsAscending (keys m)

module _ {ℓ} {V : Type ℓ} where
  keys-insert : (k : Token) (v : V) (m : TokenMap V) → keys (insert k v m) ≡ insert_token k (keys m)
  unfolding insert insert_token
  keys-insert k v [] = refl
  keys-insert k v (e ∷ m) = ground (arith, keys-insert k v m)

  pub insert-IsOrdered :
      (k : Token) (v : V) (m : TokenMap V) → IsOrdered m → IsOrdered (insert k v m)
  insert-IsOrdered k v m a = rw (keys-insert k v m) (insert_token-IsAscending k (keys m) a)

  remove-Above : (j k : Token) (m : TokenMap V) → Above j (keys m) → Above j (keys (remove k m))
  unfolding remove
  remove-Above j k [] a = tt
  remove-Above j k (e ∷ m) a = ground (arith, remove-Above j k m a.1)

  pub remove-IsOrdered : (k : Token) (m : TokenMap V) → IsOrdered m → IsOrdered (remove k m)
  unfolding remove
  remove-IsOrdered k [] a = tt
  remove-IsOrdered k (e ∷ m) a = ground (arith, remove-IsOrdered k m a.1, remove-Above e.0 k m a.0)

  -- A key of the map is found in it.
  pub contains_key-keys : (k : Token) (m : TokenMap V) → contains_key k m ≡ contains k (keys m)
  unfolding lookup contains
  contains_key-keys k [] = refl
  contains_key-keys k (e ∷ m) = ground (arith, contains_key-keys k m)
