-- ===== src/Game.antt =====
-- private_poker/src/game.rs: the settings and the data that every phase of a game works on. The
-- phases' transitions and the users' operations stand in the modules below.
pub mod Queries
pub mod Users
pub mod Views
pub mod Seats
pub mod Blinds
pub mod Deal
pub mod Betting
pub mod Showdown
pub mod Cleanup
pub mod Lobby
pub mod Census
pub mod Money
pub mod Phases
use private_poker.Prelude.{ℕ, zero, suc, ◌+◌, ◌/◌, String, List, [], ◌∷◌, Option, none, Bool}
use private_poker.Prelude.Int.{pos}
use private_poker.Entities.Usdf.{Usdf}
use private_poker.Entities.NameSet.{NameSet}
use private_poker.Entities.Pot
use private_poker.Entities.Pot.{Pot}
use private_poker.Entities.Player.{Player}
use private_poker.Entities.{
  Usd, User, Card, Action, Bet, default_buy_in, default_min_big_blind, default_min_small_blind,
  max_players, default_max_users,
}
use private_poker.Functional.Deck.{new_deck}

pub data UserError : Type 0 where
  cannot_show_hand cannot_start_game capacity_reached game_already_in_progress
        game_already_starting :
      UserError
  insufficient_funds : Usd → UserError
  invalid_action : Action → UserError
  invalid_bet : Bet → UserError
  not_enough_players out_of_turn_action user_already_exists user_does_not_exist user_not_playing
        user_already_showing_hand :
      UserError

-- `Result<A, UserError>`.
pub data Result {ℓ} (A : Type ℓ) : Type ℓ where
  ok : A → Result A
  err : UserError → Result A

pub record GameSettings : Type 0 where
  pub buy_in : Usd
  pub min_big_blind : Usd
  pub min_small_blind : Usd
  pub max_players : ℕ
  pub max_users : ℕ

-- `GameSettings::new`.
pub new_settings : ℕ → ℕ → Usd → GameSettings
new_settings max_players max_users buy_in = record {
  buy_in = buy_in;
  min_big_blind = buy_in / 20;
  min_small_blind = buy_in / 20 / 2;
  max_players = max_players;
  max_users = max_users;
}

-- `GameSettings::default`.
unfoldable pub default_settings : GameSettings
default_settings = record {
  buy_in = default_buy_in;
  min_big_blind = default_min_big_blind;
  min_small_blind = default_min_small_blind;
  max_players = max_players;
  max_users = default_max_users;
}

pub record GameData : Type 0 where
  pub deck : List Card
  pub donations : Usdf
  pub small_blind : Usd
  pub big_blind : Usd
  pub spectators : List (String × User)
  pub waitlist : List User
  pub open_seats : List ℕ
  pub players : List Player
  pub board : List Card
  pub num_players_active : ℕ
  pub num_players_called : ℕ
  pub pot : Pot
  pub players_to_spectate : NameSet
  pub players_to_remove : NameSet
  pub deck_idx : ℕ
  pub small_blind_idx : ℕ
  pub big_blind_idx : ℕ
  pub starting_action_idx : ℕ
  pub next_action_idx : Option ℕ
  pub settings : GameSettings

-- `from..from + count`.
unfoldable pub range_from : ℕ → ℕ → List ℕ
range_from start zero = []
range_from start (suc count) = start ∷ range_from (start + 1) count

-- `From<GameSettings> for GameData`.
unfoldable pub game_data_of : GameSettings → GameData
unfolding range_from
game_data_of s = record {
  deck = new_deck;
  donations = pos 0;
  small_blind = s.min_small_blind;
  big_blind = s.min_big_blind;
  spectators = [];
  waitlist = [];
  open_seats = range_from 0 s.max_players;
  players = [];
  board = [];
  num_players_active = 0;
  num_players_called = 0;
  pot = Pot.new;
  players_to_spectate = [];
  players_to_remove = [];
  deck_idx = 0;
  small_blind_idx = 0;
  big_blind_idx = 1;
  starting_action_idx = 2;
  next_action_idx = none;
  settings = s;
}

-- `GameData::new`.
unfoldable pub new_game_data : GameData
unfolding game_data_of default_settings
new_game_data = game_data_of default_settings
