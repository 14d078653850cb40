-- ===== src/Net/Server/GameThread/Effects.antt =====
-- What a command that the game thread of private_poker/src/net/server.rs accepts has done.
use private_poker.Prelude.{◌≡◌, true, false, done, ◌||◌, List, Option}
use private_poker.Entities.{Action, Username}
use private_poker.Game.{GameData, Result}
use private_poker.Game.Queries.{contains_user, contains_waitlister, contains_player, is_turn}
use private_poker.Game.Census.{census, name_weight}
use private_poker.Game.Census.Joined.{Plays, Watches, Leaves, Shows}
use private_poker.Game.Phases.{PokerState, game_data}
use private_poker.Game.Phases.Requests.{is_queued, show_hand, take_action}
use private_poker.Net.Messages.{UserCommand, play, spectate, change_state, connect, leave}

-- The game, before and after, of a command that is acknowledged, and what is acknowledged.
abbrev pub After : Username → UserCommand → PokerState → UserCommand → PokerState → Type 0
After name (change_state play) s c s' = (c ≡ change_state play) × Plays name (game_data s')
After name (change_state spectate) s c s' =
    (c ≡ change_state spectate) × Watches name (game_data s')
After name connect s c s' = (c ≡ connect) × (contains_user name (game_data s') ≡ true)
After name leave s c s' =
    (c ≡ leave)
    × Leaves name (game_data s')
    × (is_queued s ≡ false → census (name_weight name) (game_data s') ≡ 0)
After name UserCommand.show_hand s c s' = (c ≡ UserCommand.show_hand) × Shows name (game_data s')
After name UserCommand.start_game s c s' =
    (c ≡ UserCommand.start_game)
    × (d : GameData) × (s' ≡ PokerState.lobby d (record { start_game = true }))
    × ((contains_waitlister name d || contains_player name d) ≡ true)
After name (UserCommand.take_action a) s c s' =
    (a' : Action) × (c ≡ UserCommand.take_action a')
    × (d : GameData) × (options : Option (List Action)) × (s ≡ PokerState.take_action d options)
    × (is_turn name d ≡ done true)

abbrev pub TakesEffect :
    Username → UserCommand → PokerState → PokerState × Result UserCommand → Type 0
TakesEffect name c s (s', Result.ok c') = After name c s c' s'
TakesEffect name c s (s', Result.err _) = Unit
