-- ===== src/Entities/Pot.antt =====
-- `Pot` of private_poker/src/game/entities.rs: each seat's investment in the pot.
pub mod Calls
use private_poker.Prelude.{
  ℕ, ◌==◌, Bool, List, [], ◌∷◌, if◌then◌else◌, max, add_u32, sub_u32, mul_u32,
}

abbrev pub Investments : Type 0
Investments = List (ℕ × ℕ)

pub record Pot : Type 0 where
  pub investments : Investments

-- `entry(player_idx).or_default()` and `+= amount`.
unfoldable pub invest : ℕ → ℕ → Investments → Investments
invest i amount [] = (i, add_u32 0 amount) ∷ []
invest i amount (e ∷ m) = if i == e.0 then (i, add_u32 e.1 amount) ∷ m else e ∷ invest i amount m

unfoldable pub find_investment : ℕ → Investments → ℕ
find_investment i [] = 0
find_investment i (e ∷ m) = if i == e.0 then e.1 else find_investment i m

unfoldable pub largest : Investments → ℕ
largest [] = 0
largest (e ∷ m) = max e.1 (largest m)

-- The sum of the values, as the wrapping addition of `u32` leaves it.
unfoldable pub sum_investments : Investments → ℕ
sum_investments [] = 0
sum_investments (e ∷ m) = add_u32 e.1 (sum_investments m)

abbrev pub new : Pot
new = record { investments = [] }

unfoldable pub get_call : Pot → ℕ
unfolding largest
get_call p = largest p.investments

unfoldable pub get_investment_by_player_idx : Pot → ℕ → ℕ
unfolding find_investment
get_investment_by_player_idx p i = find_investment i p.investments

unfoldable pub get_call_by_player_idx : Pot → ℕ → ℕ
unfolding get_call get_investment_by_player_idx
get_call_by_player_idx p i = sub_u32 (get_call p) (get_investment_by_player_idx p i)

unfoldable pub get_min_raise_by_player_idx : Pot → ℕ → ℕ
unfolding get_call get_investment_by_player_idx
get_min_raise_by_player_idx p i =
    sub_u32 (mul_u32 2 (get_call p)) (get_investment_by_player_idx p i)

unfoldable pub get_size : Pot → ℕ
unfolding sum_investments
get_size p = sum_investments p.investments

unfoldable pub is_empty : Pot → Bool
unfolding get_size
is_empty p = get_size p == 0

-- `bet`, of which only the amount counts.
unfoldable pub bet : Pot → ℕ → ℕ → Pot
unfolding invest
bet p i amount = record { investments = invest i amount p.investments }
