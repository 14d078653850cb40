-- ===== src/Net/Server/Processing.antt =====
-- Processing the clients' messages, in private_poker/src/net/server.rs, keeps usernames apart.
use private_poker.Prelude.{
  ◌≡◌, refl, ◌∙◌, false, Bool-cases, inl, inr, List, [], ◌∷◌, if◌then◌else◌,
}
use private_poker.Net.Messages.{ClientMessage, ClientResult, ok, err}
use private_poker.Net.TokenMap.{Token, TokenMap, contains}
use private_poker.Net.Tokens.{TokenManager, associate_token_and_username}
use private_poker.Net.Tokens.Status.{Statuses, is_idle}
use private_poker.Net.Tokens.Soundness.{IsSound, StaysLive}
use private_poker.Net.Tokens.Claims.{associate-IsSound}
use private_poker.Net.Server.{Network}
use private_poker.Net.Server.Relay.{is_connect}
use private_poker.Net.Server.Thread.{forward, process_message, process_client, process_all}
use private_poker.Net.Server.Consistency.{AllLive, AllLive-StaysLive}

-- What processing a message does to the statuses and the messages that wait.
abbrev pub Advances : {S : Type 0} → Statuses → Network S → Network S → Type 0
Advances f nw nw' =
    (g : Statuses) × IsSound g nw'.token_manager
    × StaysLive f g
    × (nw'.messages_to_process ≡ nw.messages_to_process)

module _ {S : Type 0} where
  forward-Advances :
      (f g : Statuses) (token : Token) (msg : ClientMessage) (nw : Network S)
      (r : TokenManager S × ClientResult (Unit {0}))
      → IsSound g r.0
      → StaysLive f g
      → Advances f nw (forward token msg nw r)
  forward-Advances f g token msg nw (tm, ok _) sound stays = (g, sound, stays, refl)
  forward-Advances f g token msg nw (tm, err e) sound stays = (g, sound, stays, refl)

  pub process_message-Advances :
      (f : Statuses) (token : Token) (msg : ClientMessage) (nw : Network S)
      → IsSound f nw.token_manager
      → is_idle (f token) ≡ false
      → Advances f nw (process_message token msg nw)
  process_message-Advances f token msg nw sound live = elim (Bool-cases (is_connect msg.command)) [
    | inl joins ↦
        let (g, sound', stays) =
          associate-IsSound f nw.token_manager sound token msg.username live in
        rw joins (
          forward-Advances f g token msg nw
            (associate_token_and_username token msg.username nw.token_manager) sound' stays)
    | inr other ↦
        rw other (forward-Advances f f token msg nw (nw.token_manager, _) sound (λ t h. h))
  ]

  Advances-trans :
      (f : Statuses) (nw nw' nw'' : Network S) (step : Advances f nw nw')
      → Advances step.0 nw' nw''
      → Advances f nw nw''
  Advances-trans f nw nw' nw'' (g, sound, stays, same) (g', sound', stays', same') =
      (g', sound', λ t h. stays' t (stays t h), same' ∙ same)

  process_client-Advances :
      (f : Statuses) (token : Token) (msgs : List ClientMessage) (nw : Network S)
      → IsSound f nw.token_manager
      → is_idle (f token) ≡ false
      → Advances f nw (process_client token msgs nw)
  unfolding process_client
  process_client-Advances f token [] nw sound live = (f, sound, λ t h. h, refl)
  process_client-Advances f token (msg ∷ msgs) nw sound live =
      let step = process_message-Advances f token msg nw sound live in
      Advances-trans f nw (process_message token msg nw)
        (process_client token msgs (process_message token msg nw)) step
        (process_client-Advances step.0 token msgs (process_message token msg nw) step.1
          (step.2 token live))

  pub process_all-Advances :
      (f : Statuses) (m : TokenMap (List ClientMessage)) (nw : Network S)
      → IsSound f nw.token_manager
      → AllLive f m
      → Advances f nw (process_all m nw)
  unfolding process_all
  process_all-Advances f [] nw sound lives = (f, sound, λ t h. h, refl)
  process_all-Advances f ((token, msgs) ∷ rest) nw sound lives =
      let nw' = if contains token nw.tokens_to_remove then nw else process_client token msgs nw in
      let step : Advances f nw nw' = elim (Bool-cases (contains token nw.tokens_to_remove)) [
        | inl leaving ↦ rw leaving (f, sound, λ t h. h, refl)
        | inr stays ↦ rw stays (process_client-Advances f token msgs nw sound lives.0)
      ] in
      Advances-trans f nw nw' (process_all rest nw') step (
        process_all-Advances step.0 rest nw' step.1
          (AllLive-StaysLive f step.0 rest step.2 lives.1))
