-- ===== src/Net/Messages.antt =====
-- private_poker/src/net/messages.rs: the messages between the clients and the server. A view of the
-- game is that of Game/Views, and a user's error that of Game.
use private_poker.Prelude.{String, List}
use private_poker.Entities.{Action, Username}
use private_poker.Game.{UserError}
use private_poker.Game.Views.{GameView}

pub data ClientError : Type 0 where
  already_associated does_not_exist expired unassociated : ClientError

pub data UserState : Type 0 where
  play spectate : UserState

pub data UserCommand : Type 0 where
  change_state : UserState → UserCommand
  connect leave show_hand start_game : UserCommand
  take_action : Action → UserCommand

pub record ClientMessage : Type 0 where
  pub username : Username
  pub command : UserCommand

pub data ServerMessage : Type 0 where
  ack : ClientMessage → ServerMessage
  client_error : ClientError → ServerMessage
  game_view : GameView → ServerMessage
  status : String → ServerMessage
  turn_signal : List Action → ServerMessage
  user_error : UserError → ServerMessage

-- `Result<A, ClientError>`.
pub data ClientResult {ℓ} (A : Type ℓ) : Type ℓ where
  ok : A → ClientResult A
  err : ClientError → ClientResult A
