-- ===== src/Game/Census/Lists.antt =====
-- Lemmas on the lists that the census adds up.
use private_poker.Prelude.{
  ℕ, zero, suc, ◌+◌, ◌≡◌, String, Bool, true, List, [], ◌∷◌, some, arith, eq_iff, sum_by,
  take_first, insert_at, Bool-cases, Option-cases, inl, inr,
}
use private_poker.Entities.{User}
use private_poker.Entities.NameMap.{lookup, insert, remove}

-- Every entry of the map stands under its user's name.
abbrev pub IsKeyed : List (String × User) → Type 0
IsKeyed [] = Unit
IsKeyed (e ∷ m) = (e.0 ≡ e.1.name) × IsKeyed m

pub lookup-IsKeyed :
    (k : String) (u : User) (m : List (String × User))
    → IsKeyed m
    → lookup k m ≡ some u
    → u.name ≡ k
lookup-IsKeyed k u [] h e = cc
lookup-IsKeyed k u ((j, v) ∷ m) h e = ground (arith, eq_iff k j, lookup-IsKeyed k u m h.1)

pub insert-IsKeyed :
    (k : String) (u : User) (m : List (String × User))
    → IsKeyed m
    → u.name ≡ k
    → IsKeyed (insert k u m)
insert-IsKeyed k u [] h e = (sym', tt)
  where
    sym' : k ≡ u.name
    sym' = cc
insert-IsKeyed k u ((j, v) ∷ m) h e = ground (arith, eq_iff k j, insert-IsKeyed k u m h.1)

pub remove-IsKeyed : (k : String) (m : List (String × User)) → IsKeyed m → IsKeyed (remove k m)
remove-IsKeyed k [] h = tt
remove-IsKeyed k (e ∷ m) h = ground (arith, remove-IsKeyed k m h.1)

module _ {ℓ} {A : Type ℓ} where
  -- What `take_first` takes passes the test, and the sum falls by its part.
  pub take_first-passes :
      (p : A → Bool) (x : A) (xs ys : List A) → take_first p xs ≡ some (x, ys) → p x ≡ true
  take_first-passes p x [] ys e = cc
  take_first-passes p x (y ∷ xs) ys e = elim (Bool-cases (p y)) [
    | inl hit ↦ ground arith
    | inr miss ↦ elim (Option-cases (take_first p xs)) [
      | inl nothing ↦ ground arith
      | inr ((z, zs), found) ↦ ground (arith, take_first-passes p x xs zs)
    ]
  ]

  pub sum_by-take_first :
      (f : A → ℕ) (p : A → Bool) (x : A) (xs ys : List A)
      → take_first p xs ≡ some (x, ys)
      → sum_by f ys + f x ≡ sum_by f xs
  sum_by-take_first f p x [] ys e = cc
  sum_by-take_first f p x (y ∷ xs) ys e = elim (Bool-cases (p y)) [
    | inl hit ↦ ground arith
    | inr miss ↦ elim (Option-cases (take_first p xs)) [
      | inl nothing ↦ ground arith
      | inr ((z, zs), found) ↦ ground (arith, sum_by-take_first f p x xs zs)
    ]
  ]

  pub sum_by-insert_at :
      (f : A → ℕ) (x : A) (i : ℕ) (xs : List A) → sum_by f (insert_at xs i x) ≡ sum_by f xs + f x
  sum_by-insert_at f x zero xs = omega arith
  sum_by-insert_at f x (suc i) [] = omega arith
  sum_by-insert_at f x (suc i) (y ∷ xs) = omega (arith, sum_by-insert_at f x i xs)
