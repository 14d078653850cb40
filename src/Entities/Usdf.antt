-- ===== src/Entities/Usdf.antt =====
-- `Usdf`, the `f32` of private_poker/src/game/entities.rs. The game puts only whole dollars into
-- it, so a value is an integer; each operation rounds its exact result to 24 significant bits,
-- half to even, which is what IEEE single precision does to an integer.
use private_poker.Prelude.{
  ℕ, zero, suc, ◌+◌, ◌-◌, ◌*◌, ◌/◌, ◌%◌, ◌^◌, ◌≤◌, ◌≡◌, ap, arith, ltb, leb, if◌then◌else◌, u32_mod,
  le→leb,
}
use private_poker.Prelude.Int.{ℤ, pos, negsuc, pos_part, neg_part, ◌+ℤ◌, ◌-ℤ◌}

abbrev pub Usdf : Type 0
Usdf = ℤ

abbrev pub significand : ℕ
significand = 2 ^ 24

-- The binary exponent of the last significant bit; 128 halvings reach any finite `f32`.
exponent : ℕ → ℕ → ℕ
exponent zero n = 0
exponent (suc fuel) n =
    let rest = exponent fuel (n / 2) in if leb n significand then 0 else suc rest

-- The multiple of `unit` nearest to `n`, an odd half going to the even one.
round_to : ℕ → ℕ → ℕ
round_to unit n =
    let q = n / unit in
    let r = 2 * (n % unit) in
    if ltb r unit then q * unit else if ltb unit r then (q + 1) * unit else (q + q % 2) * unit

unfoldable pub round_ℕ : ℕ → ℕ
unfolding exponent round_to
round_ℕ n = if leb n significand then n else round_to (2 ^ exponent 128 n) n

abbrev negative : ℕ → ℤ
negative zero = pos 0
negative (suc n) = negsuc n

unfoldable pub round : ℤ → Usdf
unfolding round_ℕ
round (pos n) = pos (round_ℕ n)
round (negsuc n) = negative (round_ℕ (suc n))

-- `money as Usdf`.
unfoldable pub usdf_of : ℕ → Usdf
unfolding round
usdf_of n = round (pos n)

infixl 65 ◌+f◌ ◌-f◌
unfoldable pub ◌+f◌ : Usdf → Usdf → Usdf
unfolding round ◌+ℤ◌
x +f y = round (x +ℤ y)

unfoldable pub ◌-f◌ : Usdf → Usdf → Usdf
unfolding round ◌-ℤ◌
x -f y = round (x -ℤ y)

-- `donations as Usd`: the cast saturates.
abbrev pub usd_of : Usdf → ℕ
usd_of (pos n) = if ltb n u32_mod then n else u32_mod - 1
usd_of (negsuc n) = 0

-- Whole dollars up to 2^24 in size are exact.
abbrev pub IsExact : ℤ → Type 0
IsExact x = (pos_part x ≤ significand) × (neg_part x ≤ significand)

round_ℕ_exact : (n : ℕ) → n ≤ significand → round_ℕ n ≡ n
unfolding round_ℕ
round_ℕ_exact n h = rw (le→leb n significand h)

pub round_exact : (x : ℤ) → IsExact x → round x ≡ x
unfolding round
round_exact (pos n) h = ap pos (round_ℕ_exact n h.0)
round_exact (negsuc n) h = rw (round_ℕ_exact (suc n) h.1)

pub usdf_of_exact : (n : ℕ) → n ≤ significand → usdf_of n ≡ pos n
unfolding usdf_of
usdf_of_exact n h = round_exact (pos n) (omega arith)

pub +f_exact : (x y : ℤ) → IsExact (x +ℤ y) → x +f y ≡ x +ℤ y
unfolding ◌+f◌
+f_exact x y h = round_exact (x +ℤ y) h

pub -f_exact : (x y : ℤ) → IsExact (x -ℤ y) → x -f y ≡ x -ℤ y
unfolding ◌-f◌
-f_exact x y h = round_exact (x -ℤ y) h
