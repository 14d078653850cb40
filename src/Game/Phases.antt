-- ===== src/Game/Phases.antt =====
-- `PokerState` of private_poker/src/game.rs: the phase of the game, with the data and what the phase
-- itself keeps. Its steps stand in Step and the users' requests in Requests.
pub mod Step
pub mod Requests
pub mod Board
pub mod BoardAfter
pub mod Street
pub mod Reach
use private_poker.Prelude.{List, Option}
use private_poker.Entities.{Action}
use private_poker.Game.{GameData, GameSettings, game_data_of, new_game_data}
use private_poker.Game.Lobby.{Lobby}
use private_poker.Game.Lobby
use private_poker.Game.Showdown.{HandEvalCache}

pub data PokerState : Type 0 where
  lobby : GameData → Lobby → PokerState
  seat_players move_button collect_blinds deal : GameData → PokerState
  take_action : GameData → Option (List Action) → PokerState
  flop turn river : GameData → PokerState
  show_hands distribute_pot : GameData → HandEvalCache → PokerState
  remove_players divide_donations update_blinds boot_players : GameData → PokerState

abbrev pub game_data : PokerState → GameData
game_data (lobby d _) = d
game_data (seat_players d) = d
game_data (move_button d) = d
game_data (collect_blinds d) = d
game_data (deal d) = d
game_data (take_action d _) = d
game_data (flop d) = d
game_data (turn d) = d
game_data (river d) = d
game_data (show_hands d _) = d
game_data (distribute_pot d _) = d
game_data (remove_players d) = d
game_data (divide_donations d) = d
game_data (update_blinds d) = d
game_data (boot_players d) = d

-- `PokerState::new`.
unfoldable pub new : PokerState
unfolding new_game_data
new = lobby new_game_data Lobby.new

-- `From<GameSettings> for PokerState`.
unfoldable pub of_settings : GameSettings → PokerState
unfolding game_data_of
of_settings s = lobby (game_data_of s) Lobby.new
