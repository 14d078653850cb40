-- ===== src/Net/Client.antt =====
-- private_poker/src/net/client.rs: the blocking client. A stream is any type, with what reading and
-- writing a message do to it; a connection is what dialling gives within a timeout.
pub mod Exchange
pub mod Handshake
use private_poker.Prelude.{ℕ, List, [], ◌∷◌, Option, none, some}
use private_poker.Entities.{Action, Username}
use private_poker.Game.{UserError}
use private_poker.Game.Views.{GameView}
use private_poker.Net.Io.{ErrorKind, IoResult}
use private_poker.Net.Messages.{
  ClientError, ClientMessage, ServerMessage, UserCommand, UserState, ack, client_error, game_view,
  status, turn_signal, user_error,
}
use private_poker.Net.Tokens.{Duration}

-- How a call ends: with a value, or one of the errors that it fails with.
pub data Reply {ℓ} (A : Type ℓ) : Type ℓ where
  received : A → Reply A
  refused_client : ClientError → Reply A
  refused_user : UserError → Reply A
  invalid_response : ServerMessage → Reply A
  io_error : ErrorKind → Reply A
  not_connected : Reply A

pub record Client (S : Type 0) : Type 0 where
  pub username : Username
  pub addr : Username
  pub stream : S

-- What `recv` and its variants make of a message.
abbrev pub on_any : ServerMessage → Reply ServerMessage
on_any (client_error e) = refused_client e
on_any (user_error e) = refused_user e
on_any (ack m) = received (ack m)
on_any (game_view v) = received (game_view v)
on_any (status s) = received (status s)
on_any (turn_signal os) = received (turn_signal os)

abbrev pub on_ack : ServerMessage → Reply (Unit {0})
on_ack (ack _) = received tt
on_ack (client_error e) = refused_client e
on_ack (user_error e) = refused_user e
on_ack (game_view v) = invalid_response (game_view v)
on_ack (status s) = invalid_response (status s)
on_ack (turn_signal os) = invalid_response (turn_signal os)

abbrev pub on_client_error : ServerMessage → Reply ClientError
on_client_error (client_error e) = received e
on_client_error (ack m) = invalid_response (ack m)
on_client_error (user_error e) = invalid_response (user_error e)
on_client_error (game_view v) = invalid_response (game_view v)
on_client_error (status s) = invalid_response (status s)
on_client_error (turn_signal os) = invalid_response (turn_signal os)

abbrev pub on_user_error : ServerMessage → Reply UserError
on_user_error (user_error e) = received e
on_user_error (ack m) = invalid_response (ack m)
on_user_error (client_error e) = invalid_response (client_error e)
on_user_error (game_view v) = invalid_response (game_view v)
on_user_error (status s) = invalid_response (status s)
on_user_error (turn_signal os) = invalid_response (turn_signal os)

abbrev pub on_view : ServerMessage → Reply GameView
on_view (game_view v) = received v
on_view (client_error e) = refused_client e
on_view (user_error e) = refused_user e
on_view (ack m) = invalid_response (ack m)
on_view (status s) = invalid_response (status s)
on_view (turn_signal os) = invalid_response (turn_signal os)

abbrev pub on_read {ℓ} : {A : Type ℓ} → (ServerMessage → Reply A) → IoResult ServerMessage → Reply A
on_read k (IoResult.ok msg) = k msg
on_read k (IoResult.err kind) = io_error kind

abbrev pub written : IoResult (Unit {0}) → Reply (Unit {0})
written (IoResult.ok _) = received tt
written (IoResult.err kind) = io_error kind

-- The timeouts in nanoseconds, in the order in which they are popped.
abbrev pub connect_timeouts : List Duration
connect_timeouts = 100000000 ∷ 500000000 ∷ 1000000000 ∷ []

module _ {S : Type 0} (read : S → IoResult ServerMessage × S)
    (write : ClientMessage → S → IoResult (Unit {0}) × S) where
  unfoldable pub recv : Client S → Client S × Reply ServerMessage
  recv c = let (r, stream) = read c.stream in (record c { stream = stream }, on_read on_any r)

  abbrev pub recv_ack : S → S × Reply (Unit {0})
  recv_ack s = let (r, s') = read s in (s', on_read on_ack r)

  unfoldable pub recv_client_error : S → S × Reply ClientError
  recv_client_error s = let (r, s') = read s in (s', on_read on_client_error r)

  unfoldable pub recv_user_error : S → S × Reply UserError
  recv_user_error s = let (r, s') = read s in (s', on_read on_user_error r)

  abbrev pub recv_view : S → S × Reply GameView
  recv_view s = let (r, s') = read s in (s', on_read on_view r)

  unfoldable pub change_state : UserState → Client S → Client S × Reply (Unit {0})
  change_state state c =
      let msg : ClientMessage = record {
        username = c.username;
        command = UserCommand.change_state state;
      } in
      let (r, stream) = write msg c.stream in (record c { stream = stream }, written r)

  unfoldable pub show_hand : Client S → Client S × Reply (Unit {0})
  show_hand c =
      let msg : ClientMessage = record { username = c.username; command = UserCommand.show_hand } in
      let (r, stream) = write msg c.stream in (record c { stream = stream }, written r)

  unfoldable pub start_game : Client S → Client S × Reply (Unit {0})
  start_game c =
      let msg : ClientMessage = record {
        username = c.username;
        command = UserCommand.start_game;
      } in
      let (r, stream) = write msg c.stream in (record c { stream = stream }, written r)

  unfoldable pub take_action : Action → Client S → Client S × Reply (Unit {0})
  take_action action c =
      let msg : ClientMessage = record {
        username = c.username;
        command = UserCommand.take_action action;
      } in
      let (r, stream) = write msg c.stream in (record c { stream = stream }, written r)

  -- After an acknowledgement the client waits for its first view.
  abbrev pub first_view : Username → Username → S × Reply GameView → Reply (Client S × GameView)
  first_view username addr (s, received view) =
      received (record { username = username; addr = addr; stream = s }, view)
  first_view username addr (s, refused_client e) = refused_client e
  first_view username addr (s, refused_user e) = refused_user e
  first_view username addr (s, invalid_response m) = invalid_response m
  first_view username addr (s, io_error kind) = io_error kind
  first_view username addr (s, not_connected) = not_connected

  abbrev pub acknowledged : Username → Username → S × Reply (Unit {0}) → Reply (Client S × GameView)
  acknowledged username addr (s, received _) = first_view username addr (recv_view s)
  acknowledged username addr (s, refused_client e) = refused_client e
  acknowledged username addr (s, refused_user e) = refused_user e
  acknowledged username addr (s, invalid_response m) = invalid_response m
  acknowledged username addr (s, io_error kind) = io_error kind
  acknowledged username addr (s, not_connected) = not_connected

  abbrev pub greeted : Username → Username → IoResult (Unit {0}) × S → Reply (Client S × GameView)
  greeted username addr (IoResult.ok _, s) = acknowledged username addr (recv_ack s)
  greeted username addr (IoResult.err kind, s) = io_error kind

  abbrev pub handshake : Username → Username → S → Reply (Client S × GameView)
  handshake username addr s =
      greeted username addr
        (write (record { username = username; command = UserCommand.connect }) s)

  unfoldable pub attempts :
      (Duration → Option S) → Username → Username → List Duration → Reply (Client S × GameView)
  attempts dial username addr [] = not_connected
  attempts dial username addr (timeout ∷ timeouts) =
      let rest = attempts dial username addr timeouts in
      elim (dial timeout) [ none ↦ rest | some s ↦ handshake username addr s ]

  unfoldable pub connect : (Duration → Option S) → Username → Username → Reply (Client S × GameView)
  unfolding attempts
  connect dial username addr = attempts dial username addr connect_timeouts
