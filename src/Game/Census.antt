-- ===== src/Game/Census.antt =====
-- Who is in the game and with how much money: the spectators, the waitlist and the players of
-- private_poker/src/game.rs taken together. A sum over all users, by any weight of a name and its
-- money, sees each user wherever the user stands; the number of users, their money and the number
-- of entries under a name are such sums.
pub mod Lists
pub mod Users
pub mod Join
pub mod Invariant
pub mod Removal
pub mod Joined
pub mod Phases
pub mod Places
pub mod Table
pub mod Showdown
pub mod Gifts
pub mod Step
pub mod Reach
use private_poker.Prelude.{ℕ, ◌+◌, ◌≡◌, ◌≤◌, String, List, sum_by, str_eq, if◌then◌else◌}
use private_poker.Entities.{User, Usd, Username}
use private_poker.Entities.Player.{Player}
use private_poker.Entities.NameMap.Laws.{IsMap}
use private_poker.Game.{GameData}
use Lists.{IsKeyed}

abbrev pub Weight : Type 0
Weight = Username → Usd → ℕ

abbrev pub weigh_user : Weight → User → ℕ
weigh_user w u = w u.name u.money

abbrev pub weigh_entry : Weight → String × User → ℕ
weigh_entry w e = w e.0 e.1.money

abbrev pub weigh_player : Weight → Player → ℕ
weigh_player w p = w p.user.name p.user.money

unfoldable pub census : Weight → GameData → ℕ
census w d =
    sum_by (weigh_entry w) d.spectators
    + sum_by (weigh_user w) d.waitlist
    + sum_by (weigh_player w) d.players

-- The money of all users.
abbrev pub money_weight : Weight
money_weight name money = money

-- The entries under one name.
abbrev pub name_weight : Username → Weight
name_weight k name money = if str_eq k name then 1 else 0

-- The spectators are a map by the users' own names, and nobody stands in two places.
pub record IsCensus (d : GameData) : Type 0 where
  pub is_map : IsMap d.spectators
  pub is_keyed : IsKeyed d.spectators
  pub once : (k : Username) → census (name_weight k) d ≤ 1
