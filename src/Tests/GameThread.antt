-- ===== src/Tests/GameThread.antt =====
-- The game thread of private_poker/src/net/server.rs on small examples.
use private_poker.Prelude.{refl, [], ◌∷◌, none, some, Outcome, done, panic, inr, ap, arith}
use private_poker.Entities.{fold}
use private_poker.Game.{GameData}
use private_poker.Game.Lobby
use private_poker.Game.Seats.{seat_players}
use private_poker.Game.Queries
use private_poker.Game.Users
use private_poker.Game.Phases.{PokerState}
use private_poker.Game.Phases.Requests.{remove_user, get_next_action_username, get_action_options}
use private_poker.Net.Server.GameThread.{
  Received, Host, Waiting, Verdict, breaks, fails, command_rounds,
}
use private_poker.Net.Server.GameThread.Endings.{LoopEnds, command_rounds-LoopEnds}
use private_poker.Tests.{joined, table, seated}

-- Bob leaves between two hands.
abbrev waiting_room : PokerState
waiting_room = PokerState.lobby table Lobby.new

-- A player has the turn, and lets a second pass.
abbrev turn_data : GameData
turn_data = record seated { next_action_idx = some 0 }

abbrev turn_host : Host
turn_host = record {
  state = PokerState.take_action turn_data (some (fold ∷ []));
  status = "turn";
  sent = [];
}

abbrev turn : Waiting
turn = record { host = turn_host; next_action_username = some "ann"; timeout = 5000000000 }

abbrev second_passes : Received
second_passes = (none, 1000000000) ∷ []

abbrev or_verdict : Outcome (Verdict × Received) → Verdict × Received
or_verdict (done o) = o
or_verdict panic = (fails turn_host, [])

abbrev or_host : Verdict → Host
or_host (breaks h) = h
or_host _ = turn_host

unfoldable outcome : Verdict × Received
unfolding command_rounds
outcome = or_verdict (command_rounds (λ u os. "turn") 1000000000 2 second_passes turn)

command_rounds-LoopEnds_example :
    LoopEnds (λ u os. "turn") 1000000000 second_passes turn (or_host outcome.0)
unfolding outcome command_rounds get_next_action_username get_action_options remove_user seated
    seat_players table joined Queries.get_next_action_username Users.queue_remove_user
command_rounds-LoopEnds_example =
    command_rounds-LoopEnds (λ u os. "turn") 1000000000 2 second_passes turn outcome
      (or_host outcome.0) (λ u last. inr (omega arith, ap done last, fold ∷ [], refl)) refl refl
