-- ===== src/Net/Server/Relaying.antt =====
-- Relaying the game thread's messages, in private_poker/src/net/server.rs, keeps the state consistent.
use private_poker.Prelude.{
  ◌≡◌, refl, Bool, true, false, Bool-cases, inl, inr, List, [], ◌∷◌, done, ◌>>=◌, if◌then◌else◌,
}
use private_poker.Entities.{Username}
use private_poker.Game.Views.{GameViews}
use private_poker.Net.Messages.{ServerMessage, ClientResult, ok, err, game_view}
use private_poker.Net.TokenMap.{Token, TokenSet, keys}
use private_poker.Net.Tokens.{get_token_with_username}
use private_poker.Net.Tokens.Soundness.{get_mut_stream_with_token-done}
use private_poker.Net.Tokens.Claims.{confirm-IsSound}
use private_poker.Net.Server.{ServerData, Network, respond}
use private_poker.Net.Server.Relay.{
  is_connect, is_err, confirm_token, notify, confirm_connected, respond_all, relay_ack,
  respond_found, respond_user, relay_views, relay, relay_all, reregister_all, reregister, wake,
}
use private_poker.Net.Server.Consistency.{
  AllLive-StaysLive, IsConsistent, KeepsDone, KeepsDone->>=, unchanged,
}

module _ {S : Type 0} where
  notify-IsConsistent :
      (username : Username) (nw : Network S) (gone : Bool)
      → IsConsistent nw
      → IsConsistent (notify username (nw, gone))
  notify-IsConsistent username nw true c = unchanged c refl refl
  notify-IsConsistent username nw false c = c

  confirm_token-Keeps :
      (username : Username) (o : ClientResult Token) (nw : Network S)
      → IsConsistent nw
      → KeepsDone (confirm_token o nw >>= λ r. done (notify username r))
  confirm_token-Keeps username (err e) nw c = notify-IsConsistent username nw true c
  confirm_token-Keeps username (ok token) nw c =
      let (r, runs, g, sound, stays) = confirm-IsSound c.statuses nw.token_manager c.sound token in
      let nw' : Network S = record nw { token_manager = r.0 } in
      let c' : IsConsistent nw' = record {
        statuses = g;
        sound = sound;
        live = AllLive-StaysLive c.statuses g nw.messages_to_process stays c.live;
      } in
      rw runs (notify-IsConsistent username nw' (is_err r.1) c')

  respond_all-IsConsistent :
      (tokens : List Token) (msg : ServerMessage) (nw : Network S)
      → IsConsistent nw
      → IsConsistent (respond_all tokens msg nw)
  unfolding respond_all
  respond_all-IsConsistent [] msg nw c = c
  respond_all-IsConsistent (token ∷ tokens) msg nw c =
      respond_all-IsConsistent tokens msg (respond token msg nw) (unchanged c refl refl)

  respond_user-IsConsistent :
      (username : Username) (msg : ServerMessage) (nw : Network S)
      → IsConsistent nw
      → IsConsistent (respond_user username msg nw)
  respond_user-IsConsistent username msg nw c =
      by (get_token_with_username username nw.token_manager)
    where
      by : (o : ClientResult Token) → IsConsistent (respond_found o msg nw)
      by (ok token) = unchanged c refl refl
      by (err e) = c

  relay_views-IsConsistent :
      (views : GameViews) (nw : Network S) → IsConsistent nw → IsConsistent (relay_views views nw)
  unfolding relay_views
  relay_views-IsConsistent [] nw c = c
  relay_views-IsConsistent ((username, view) ∷ views) nw c =
      relay_views-IsConsistent views (respond_user username (game_view view) nw)
        (respond_user-IsConsistent username (game_view view) nw c)

  relay-Keeps : (msg : ServerData) (nw : Network S) → IsConsistent nw → KeepsDone (relay msg nw)
  unfolding relay relay_ack confirm_connected
  relay-Keeps (ServerData.ack msg) nw c =
      KeepsDone->>= (if is_connect msg.command then confirm_connected msg.username nw else done nw)
        _
        (elim (Bool-cases (is_connect msg.command)) [
          | inl joins ↦ rw joins (confirm_token-Keeps msg.username _ nw c)
          | inr other ↦ rw other c
        ])
        (λ nw' c'.
          respond_all-IsConsistent (keys nw'.token_manager.confirmed_tokens) (ServerMessage.ack msg)
            nw' c')
  relay-Keeps (ServerData.response username data') nw c =
      respond_user-IsConsistent username data' nw c
  relay-Keeps (ServerData.status msg) nw c =
      respond_all-IsConsistent (keys nw.token_manager.confirmed_tokens) (ServerMessage.status msg)
        nw c
  relay-Keeps (ServerData.views vs) nw c = relay_views-IsConsistent vs nw c

  relay_all-Keeps :
      (msgs : List ServerData) (nw : Network S) → IsConsistent nw → KeepsDone (relay_all msgs nw)
  unfolding relay_all
  relay_all-Keeps [] nw c = c
  relay_all-Keeps (msg ∷ msgs) nw c =
      KeepsDone->>= (relay msg nw) (relay_all msgs) (relay-Keeps msg nw c) (relay_all-Keeps msgs)

  -- No stream is looked for that is in both maps.
  pub reregister_all-done :
      (tokens : TokenSet) (nw : Network S) → IsConsistent nw → reregister_all tokens nw ≡ done nw
  unfolding reregister_all
  reregister_all-done [] nw c = refl
  reregister_all-done (token ∷ tokens) nw c =
      let (o, runs, says) =
        get_mut_stream_with_token-done c.statuses nw.token_manager c.sound token in
      rw runs (reregister_all-done tokens nw c)

  pub wake-Keeps :
      (msgs : List ServerData) (nw : Network S) → IsConsistent nw → KeepsDone (wake msgs nw)
  unfolding wake
  wake-Keeps msgs nw c =
      KeepsDone->>= (relay_all msgs nw) reregister (relay_all-Keeps msgs nw c) (λ nw' c'.
        let c'' : IsConsistent (record nw' { tokens_to_reregister = [] }) =
          unchanged c' refl refl in
        rw (reregister_all-done nw'.tokens_to_reregister _ c'') c'')
