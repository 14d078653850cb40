-- ===== src/Game/Money.antt =====
-- The money in the game of private_poker/src/game.rs: the users' stacks, the pot and the donations.
-- Every user brings the buy-in, and the donations take up what a leaving user has won or lost, so
-- all of it together is the buy-in for each user present. The equation stands over the natural
-- numbers, with a negative amount of donations on the other side.
pub mod Donations
pub mod Users
pub mod Pots
pub mod Hand
pub mod Actions
pub mod Showdown
pub mod Cleanup
pub mod Deal
pub mod Seats
pub mod Step
pub mod Reach
use private_poker.Prelude.{ℕ, ◌+◌, ◌*◌, ◌≡◌, ◌≤◌, List, sum_by}
use private_poker.Prelude.Int.{pos_part, neg_part}
use private_poker.Entities.Pot.{Investments}
use private_poker.Entities.Usdf.{significand}
use private_poker.Game.{GameData}
use private_poker.Game.Queries.{get_num_users}
use private_poker.Game.Census.{census, money_weight}

abbrev pub invested : Investments → ℕ
invested m = sum_by (λ e. e.1) m

-- The stacks and the pot.
abbrev pub cash : GameData → ℕ
cash d = census money_weight d + invested d.pot.investments

-- The buy-ins of the users present.
abbrev pub dues : GameData → ℕ
dues d = d.settings.buy_in * get_num_users d

abbrev pub IsBalanced : GameData → Type 0
IsBalanced d = cash d + pos_part d.donations ≡ dues d + neg_part d.donations

-- Amounts for which an `f32` is exact, and a `u32` large enough.
pub record IsSmall (d : GameData) : Type 0 where
  pub cash_small : cash d ≤ significand
  pub dues_small : dues d ≤ significand
