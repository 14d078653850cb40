-- ===== src/Net/Server/Relay.antt =====
-- The arm of the network thread of private_poker/src/net/server.rs that the game thread wakes: its
-- messages are relayed to the clients.
use private_poker.Prelude.{Bool, true, false, List, [], ◌∷◌, Outcome, done, ◌>>=◌, if◌then◌else◌}
use private_poker.Entities.{Username}
use private_poker.Game.Views.{GameViews}
use private_poker.Net.Messages.{
  ClientMessage, ServerMessage, UserCommand, ClientResult, ok, err, change_state, connect, leave,
  show_hand, start_game, take_action, game_view,
}
use private_poker.Net.TokenMap.{Token, TokenSet, keys}
use private_poker.Net.Tokens.{confirm_username, get_token_with_username, get_mut_stream_with_token}
use private_poker.Net.Server.{ServerData, Network, respond, send_leave}

-- `command == UserCommand::Connect`.
abbrev pub is_connect : UserCommand → Bool
is_connect connect = true
is_connect (change_state _) = false
is_connect leave = false
is_connect show_hand = false
is_connect start_game = false
is_connect (take_action _) = false

abbrev pub is_err {ℓ} : {A : Type ℓ} → ClientResult A → Bool
is_err (ok _) = false
is_err (err _) = true

module _ {S : Type 0} where
  -- Whether the client with the username is gone, and the state once its username is confirmed.
  abbrev pub confirm_token : ClientResult Token → Network S → Outcome (Network S × Bool)
  confirm_token (err e) nw = done (nw, true)
  confirm_token (ok token) nw = confirm_username token nw.token_manager >>= λ r.
      done (record nw { token_manager = r.0 }, is_err r.1)

  abbrev pub notify : Username → Network S × Bool → Network S
  notify username (nw, disconnected) = if disconnected then send_leave username nw else nw

  unfoldable pub confirm_connected : Username → Network S → Outcome (Network S)
  confirm_connected username nw =
      confirm_token (get_token_with_username username nw.token_manager) nw >>= λ r.
      done (notify username r)

  -- A message to each of some clients.
  unfoldable pub respond_all : List Token → ServerMessage → Network S → Network S
  respond_all [] msg nw = nw
  respond_all (token ∷ tokens) msg nw = respond_all tokens msg (respond token msg nw)

  unfoldable pub relay_ack : ClientMessage → Network S → Outcome (Network S)
  unfolding confirm_connected respond_all
  relay_ack msg nw =
      (if is_connect msg.command then confirm_connected msg.username nw else done nw) >>= λ nw'.
      done (respond_all (keys nw'.token_manager.confirmed_tokens) (ServerMessage.ack msg) nw')

  -- A client that is gone gets no response.
  abbrev pub respond_found : ClientResult Token → ServerMessage → Network S → Network S
  respond_found (ok token) msg nw = respond token msg nw
  respond_found (err _) msg nw = nw

  abbrev pub respond_user : Username → ServerMessage → Network S → Network S
  respond_user username msg nw =
      respond_found (get_token_with_username username nw.token_manager) msg nw

  unfoldable pub relay_views : GameViews → Network S → Network S
  relay_views [] nw = nw
  relay_views ((username, view) ∷ views) nw =
      relay_views views (respond_user username (game_view view) nw)

  unfoldable pub relay : ServerData → Network S → Outcome (Network S)
  unfolding relay_ack relay_views respond_all
  relay (ServerData.ack msg) nw = relay_ack msg nw
  relay (ServerData.response username data') nw = done (respond_user username data' nw)
  relay (ServerData.status msg) nw =
      done (respond_all (keys nw.token_manager.confirmed_tokens) (ServerMessage.status msg) nw)
  relay (ServerData.views vs) nw = done (relay_views vs nw)

  unfoldable pub relay_all : List ServerData → Network S → Outcome (Network S)
  unfolding relay
  relay_all [] nw = done nw
  relay_all (msg ∷ msgs) nw = relay msg nw >>= λ nw'. relay_all msgs nw'

  -- The streams of the tokens are registered again with the poll, which is not part of the model.
  unfoldable pub reregister_all : TokenSet → Network S → Outcome (Network S)
  reregister_all [] nw = done nw
  reregister_all (token ∷ tokens) nw =
      get_mut_stream_with_token token nw.token_manager >>= λ _. reregister_all tokens nw

  abbrev pub reregister : Network S → Outcome (Network S)
  reregister nw = reregister_all nw.tokens_to_reregister (record nw { tokens_to_reregister = [] })

  unfoldable pub wake : List ServerData → Network S → Outcome (Network S)
  unfolding relay_all reregister_all
  wake msgs nw = relay_all msgs nw >>= λ nw'. reregister nw'
