-- ===== src/Tests/Net.antt =====
-- Runs of private_poker/src/net on small examples.
use private_poker.Prelude.{ℕ, refl, true, List, [], ◌∷◌, none, some, arith}
use private_poker.Net.Io.{IoResult}
use private_poker.Net.Messages.{ClientMessage, connect}
use private_poker.Net.TokenMap.{Token}
use private_poker.Net.Tokens.{TokenManager, Instant, new, new_token, associate_token_and_stream}
use private_poker.Net.Tokens.Status.{Statuses, unnamed, set_status}
use private_poker.Net.Tokens.Soundness.{
  IsSound, unused_all, new-IsSound, RecyclesSoundly, recycle-IsSound,
}
use private_poker.Net.Tokens.Operations.{associate_token_and_stream-Represents}
use private_poker.Net.Tokens.Fairness.{nameless-IsFair}
use private_poker.Net.Tokens.Fresh.{IsFresh, new_token-IsFresh}
use private_poker.Net.Server.{Network, ServerData}
use private_poker.Net.Server.Thread.{Event, incoming, woken, client, turns, start, process_message}
use private_poker.Net.Server.Turns.{EndsQuiet, start-EndsQuiet}
use private_poker.Net.Server.Ownership.{IsAnswered, process_message-IsAnswered}

abbrev pub joins : ClientMessage
joins = record { username = "bob"; command = connect }

-- Two connections; one client declares a name and the game accepts it; the other one is dropped.
abbrev evening : List (List (Event ℕ) × (Token → Instant))
evening =
    ((incoming ((0, 7) ∷ (0, 8) ∷ []) true ∷ []), λ t. 0)
    ∷ ((client 2 none (some (IoResult.ok joins ∷ [])) ∷ []), λ t. 1)
    ∷ ((woken (ServerData.ack joins ∷ []) ∷ []), λ t. 9)
    ∷ []

start-EndsQuiet_example : EndsQuiet ⊥ (turns 6 evening (start 5))
start-EndsQuiet_example =
    start-EndsQuiet ⊥ 6 5 evening ((tt, tt), (((tt, (refl, tt)), tt), ((tt, tt), tt)))

-- One client, who has no username.
abbrev pub one_client : Statuses
one_client = set_status 2 unnamed unused_all

abbrev pub one_manager : TokenManager ℕ
one_manager = associate_token_and_stream 0 2 7 (new 5)

pub one_client-IsSound : IsSound one_client one_manager
one_client-IsSound = record {
  fair = nameless-IsFair unused_all (new-IsSound {S = ℕ} 5).fair 2 unnamed (omega arith) refl;
  says = associate_token_and_stream-Represents unused_all (new 5) (new-IsSound 5).says 0 2 7 refl;
}

abbrev pub one_network : Network ℕ
one_network = record (start 5) { token_manager = one_manager }

process_message-IsAnswered_example :
    IsAnswered 2 joins one_network (process_message 2 joins one_network)
process_message-IsAnswered_example =
    process_message-IsAnswered one_client 2 joins one_network one_client-IsSound refl

new_token-IsFresh_example :
    IsFresh one_client one_manager one_client-IsSound.says one_client-IsSound.fair
      (new_token one_manager)
new_token-IsFresh_example =
    new_token-IsFresh one_client one_manager one_client-IsSound.says one_client-IsSound.fair

recycle-IsSound_example : RecyclesSoundly one_client one_manager one_client-IsSound 2
recycle-IsSound_example = recycle-IsSound one_client one_manager one_client-IsSound 2
