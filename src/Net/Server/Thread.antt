-- ===== src/Net/Server/Thread.antt =====
-- The network thread of private_poker/src/net/server.rs: its events, and one turn of its loop.
use private_poker.Prelude.{ℕ, Bool, true, false, List, [], ◌∷◌, Option, ◌==◌, if◌then◌else◌}
use private_poker.Entities.{Username}
use private_poker.Net.Messages.{ClientMessage, ClientResult, ok, err, unassociated, client_error}
use private_poker.Net.TokenMap.{Token, TokenMap, TokenSet, contains, remove}
use private_poker.Net.Tokens.{
  TokenManager, Instant, Duration, new, new_token, associate_token_and_stream,
  associate_token_and_username, get_token_with_username, get_confirmed_username_with_token,
  recycle_token, recycle_expired_tokens,
}
use private_poker.Net.Io.{ErrorKind, IoResult}
use private_poker.Net.Server.{ServerData, Network, respond, send, send_leave}
use private_poker.Net.Server.Run.{Run, running, bailed, ◌>>=◌, lift}
use private_poker.Net.Server.Relay.{is_connect, reregister, wake}
use private_poker.Net.Server.Clients.{on_client}

-- An event of the poll: connections that wait, with the clock at each, and whether the error after
-- them is that none is left; messages of the game thread; a client's socket.
pub data Event (S : Type 0) : Type 0 where
  incoming : List (Instant × S) → Bool → Event S
  woken : List ServerData → Event S
  client :
      Token → Option (List (Option ErrorKind)) → Option (List (IoResult ClientMessage)) → Event S

-- Whether the message's username is that of the token that sent it.
abbrev pub check_owner : Token → ClientResult Token → ClientResult (Unit {0})
check_owner token (ok associated) = if token == associated then ok tt else err unassociated
check_owner token (err e) = err e

module _ {S : Type 0} where
  abbrev pub accept : Instant → S → Network S → Network S
  accept now stream nw =
      let (tm, token) = new_token nw.token_manager in
      record nw { token_manager = associate_token_and_stream now token stream tm }

  unfoldable pub accept_all : List (Instant × S) → Network S → Network S
  accept_all [] nw = nw
  accept_all ((now, stream) ∷ rest) nw = accept_all rest (accept now stream nw)

  unfoldable pub on_event : ℕ → Event S → Network S → Run (Network S)
  unfolding accept_all
  on_event max_network_events (incoming streams true) nw = running (accept_all streams nw)
  on_event max_network_events (incoming streams false) nw = bailed
  on_event max_network_events (woken msgs) nw = lift (wake msgs nw)
  on_event max_network_events (client token writable readable) nw =
      on_client max_network_events token writable readable nw

  unfoldable pub on_events : ℕ → List (Event S) → Network S → Run (Network S)
  unfolding on_event
  on_events max_network_events [] nw = running nw
  on_events max_network_events (e ∷ es) nw =
      on_event max_network_events e nw >>= λ nw'. on_events max_network_events es nw'

  abbrev pub check_message :
      Token → ClientMessage → TokenManager S → TokenManager S × ClientResult (Unit {0})
  check_message token msg tm =
      if is_connect msg.command
      then associate_token_and_username token msg.username tm
      else (tm, check_owner token (get_token_with_username msg.username tm))

  -- The message goes to the game thread, or an error to the client.
  abbrev pub forward :
      Token → ClientMessage → Network S → TokenManager S × ClientResult (Unit {0}) → Network S
  forward token msg nw (tm, ok _) = send msg (record nw { token_manager = tm })
  forward token msg nw (tm, err e) =
      respond token (client_error e) (record nw { token_manager = tm })

  abbrev pub process_message : Token → ClientMessage → Network S → Network S
  process_message token msg nw = forward token msg nw (check_message token msg nw.token_manager)

  unfoldable pub process_client : Token → List ClientMessage → Network S → Network S
  process_client token [] nw = nw
  process_client token (msg ∷ msgs) nw = process_client token msgs (process_message token msg nw)

  -- The clients that are to be removed are passed over.
  unfoldable pub process_all : TokenMap (List ClientMessage) → Network S → Network S
  unfolding process_client
  process_all [] nw = nw
  process_all ((token, msgs) ∷ rest) nw =
      process_all rest
        (if contains token nw.tokens_to_remove then nw else process_client token msgs nw)

  abbrev pub process_messages : Network S → Network S
  process_messages nw = process_all nw.messages_to_process (record nw { messages_to_process = [] })

  -- A confirmed user has left.
  abbrev pub leave_confirmed : ClientResult Username → Network S → Network S
  leave_confirmed (ok username) nw = send_leave username nw
  leave_confirmed (err _) nw = nw

  abbrev pub forget_messages : Token → Network S → Network S
  forget_messages token nw = record nw { messages_to_write = remove token nw.messages_to_write }

  unfoldable pub remove_client : Token → Network S → Run (Network S)
  remove_client token nw =
      let nw' = leave_confirmed (get_confirmed_username_with_token token nw.token_manager) nw in
      lift (recycle_token token nw.token_manager) >>= λ r.
      running (forget_messages token (record nw' { token_manager = r.0 }))

  unfoldable pub remove_clients : TokenSet → Network S → Run (Network S)
  unfolding remove_client
  remove_clients [] nw = running nw
  remove_clients (token ∷ tokens) nw = remove_client token nw >>= λ nw'. remove_clients tokens nw'

  unfoldable pub forget_all : List (Token × S) → Network S → Network S
  forget_all [] nw = nw
  forget_all ((token, _) ∷ rest) nw = forget_all rest (forget_messages token nw)

  unfoldable pub expire_clients : (Token → Instant) → Network S → Run (Network S)
  unfolding forget_all
  expire_clients now nw = lift (recycle_expired_tokens now nw.token_manager) >>= λ r.
      running (forget_all r.1 (record nw { token_manager = r.0 }))

  -- One turn of the loop, after the poll has returned its events.
  unfoldable pub turn : ℕ → List (Event S) → (Token → Instant) → Network S → Run (Network S)
  unfolding on_events process_all remove_clients expire_clients
  turn max_network_events events now nw = on_events max_network_events events nw >>= λ nw1.
      lift (reregister (process_messages nw1)) >>= λ nw2.
      remove_clients nw2.tokens_to_remove (record nw2 { tokens_to_remove = [] }) >>= λ nw3.
      expire_clients now nw3

  -- The thread's turns, and its state at first.
  unfoldable pub turns : ℕ → List (List (Event S) × (Token → Instant)) → Network S → Run (Network S)
  unfolding turn
  turns max_network_events [] nw = running nw
  turns max_network_events ((events, now) ∷ rest) nw =
      turn max_network_events events now nw >>= λ nw'. turns max_network_events rest nw'

  abbrev pub start : Duration → Network S
  start connect = record {
    messages_to_process = [];
    messages_to_write = [];
    token_manager = new connect;
    tokens_to_remove = [];
    tokens_to_reregister = [];
    sent = [];
  }
