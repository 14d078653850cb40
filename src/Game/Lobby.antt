-- ===== src/Game/Lobby.antt =====
-- `Game<Lobby>` of private_poker/src/game.rs.
use private_poker.Prelude.{Bool, true, false, ◌&&◌, leb}
use private_poker.Game.{GameData, Result, ok, err, not_enough_players, game_already_starting}
use private_poker.Game.Queries.{get_num_potential_players}

pub record Lobby : Type 0 where
  pub start_game : Bool

-- `Lobby::new`.
abbrev pub new : Lobby
new = record { start_game = false }

-- The match on whether the game was started and whether there are enough players.
abbrev pub start : Bool → Bool → Lobby → Lobby × Result (Unit {0})
start false false l = (l, err not_enough_players)
start false true l = (record { start_game = true }, ok tt)
start true _ l = (l, err game_already_starting)

unfoldable pub init_start : GameData → Lobby → Lobby × Result (Unit {0})
unfolding get_num_potential_players
init_start d l = start l.start_game (leb 2 (get_num_potential_players d)) l

unfoldable pub is_ready_to_start : GameData → Lobby → Bool
unfolding get_num_potential_players
is_ready_to_start d l = l.start_game && leb 2 (get_num_potential_players d)
