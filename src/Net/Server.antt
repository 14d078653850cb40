-- ===== src/Net/Server.antt =====
-- private_poker/src/net/server.rs: what its two threads share, and the network thread's state.
pub mod Run
pub mod Relay
pub mod Clients
pub mod Thread
pub mod Consistency
pub mod Relaying
pub mod Reading
pub mod Flooding
pub mod Usernames
pub mod Processing
pub mod Turns
pub mod Ownership
pub mod GameThread
use private_poker.Prelude.{ℕ, String, List, [], ◌∷◌, ◌++◌, Option, none, some, ◌*◌}
use private_poker.Entities.{Username}
use private_poker.Game.Views.{GameViews}
use private_poker.Net.Messages.{ClientMessage, ServerMessage, UserCommand, leave}
use private_poker.Net.TokenMap.{Token, TokenMap, TokenSet, lookup, insert, insert_token}
use private_poker.Net.Tokens.{TokenManager}

-- What the game thread sends to the network thread.
pub data ServerData : Type 0 where
  ack : ClientMessage → ServerData
  response : Username → ServerMessage → ServerData
  status : String → ServerData
  views : GameViews → ServerData

abbrev pub max_network_events_per_user : ℕ
max_network_events_per_user = 6

-- The local variables of the network thread, and what it has sent to the game thread.
pub record Network (S : Type 0) : Type 0 where
  pub messages_to_process : TokenMap (List ClientMessage)
  pub messages_to_write : TokenMap (List ServerMessage)
  pub token_manager : TokenManager S
  pub tokens_to_remove : TokenSet
  pub tokens_to_reregister : TokenSet
  pub sent : List ClientMessage

-- `entry(token).or_default()`, and a message at the end of it.
abbrev pub or_default {ℓ} : {A : Type ℓ} → Option (List A) → List A
or_default none = []
or_default (some xs) = xs

abbrev pub push_back {ℓ} : {A : Type ℓ} → Token → A → TokenMap (List A) → TokenMap (List A)
push_back token x m = insert token (or_default (lookup token m) ++ (x ∷ [])) m

module _ {S : Type 0} where
  -- A message is queued for a client, and its stream is watched for when it can be written.
  abbrev pub respond : Token → ServerMessage → Network S → Network S
  respond token msg nw = record nw {
    messages_to_write = push_back token msg nw.messages_to_write;
    tokens_to_reregister = insert_token token nw.tokens_to_reregister;
  }

  -- The game thread is told of a message.
  abbrev pub send : ClientMessage → Network S → Network S
  send msg nw = record nw { sent = nw.sent ++ (msg ∷ []) }

  -- It is told that a user has left.
  abbrev pub send_leave : Username → Network S → Network S
  send_leave username nw = send (record { username = username; command = leave }) nw

  abbrev pub queue_removal : Token → Network S → Network S
  queue_removal token nw = record nw { tokens_to_remove = insert_token token nw.tokens_to_remove }
