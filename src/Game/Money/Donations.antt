-- ===== src/Game/Money/Donations.antt =====
-- The donations under the operations of `f32`, as far as they are exact. A value is given by two
-- amounts of which it makes up the difference.
use private_poker.Prelude.{ℕ, ◌+◌, ◌≡◌, ◌≤◌, arith}
use private_poker.Prelude.Int.{ℤ, pos, negsuc, pos_part, neg_part, ◌+ℤ◌, ◌-ℤ◌, +ℤ_parts, -ℤ_parts}
use private_poker.Entities.Usdf.{
  Usdf, significand, IsExact, usdf_of, ◌+f◌, ◌-f◌, usdf_of_exact, +f_exact, -f_exact,
}

-- What is to be added to `a` to give `b`.
abbrev pub Fills : Usdf → ℕ → ℕ → Type 0
Fills x a b = a + pos_part x ≡ b + neg_part x

pub IsExact-of_Fills :
    (x : ℤ) (a b : ℕ) → Fills x a b → a ≤ significand → b ≤ significand → IsExact x
IsExact-of_Fills (pos n) a b e ha hb = omega arith
IsExact-of_Fills (negsuc n) a b e ha hb = omega arith

module _ (x y : Usdf) (a b c d a' b' : ℕ) (ex : Fills x a b) (ey : Fills y c d) where
  pub +f-Fills :
      a' + b + d ≡ b' + a + c → a' ≤ significand → b' ≤ significand → Fills (x +f y) a' b'
  +f-Fills e ha hb = rw (+f_exact x y (IsExact-of_Fills (x +ℤ y) a' b' sum ha hb)) sum
    where
      sum : Fills (x +ℤ y) a' b'
      sum = omega (arith, +ℤ_parts x y)

  pub -f-Fills :
      a' + b + c ≡ b' + a + d → a' ≤ significand → b' ≤ significand → Fills (x -f y) a' b'
  -f-Fills e ha hb = rw (-f_exact x y (IsExact-of_Fills (x -ℤ y) a' b' sum ha hb)) sum
    where
      sum : Fills (x -ℤ y) a' b'
      sum = omega (arith, -ℤ_parts x y)

pub usdf_of-Fills : (n : ℕ) → n ≤ significand → Fills (usdf_of n) 0 n
usdf_of-Fills n h = rw (usdf_of_exact n h) (omega arith)
