-- ===== src/Net/Server/Ownership.antt =====
-- Which messages of the clients reach the game thread, in private_poker/src/net/server.rs, and which
-- messages of the game thread reach which clients.
use private_poker.Prelude.{
  ◌≡◌, ◌⊎◌, refl, false, Bool-cases, inl, inr, List, [], ◌∷◌, ◌++◌, some, if◌then◌else◌, arith,
}
use private_poker.Net.Messages.{
  ClientMessage, ServerMessage, ClientError, ClientResult, ok, err, client_error,
}
use private_poker.Net.TokenMap.{Token, lookup, contains, IsAscending, contains-Above, lookup-insert}
use private_poker.Net.Tokens.{TokenManager, get_token_with_username, associate_token_and_username}
use private_poker.Net.Tokens.Status.{Statuses, username_of, is_idle}
use private_poker.Net.Tokens.Soundness.{IsSound}
use private_poker.Net.Tokens.Claims.{associate-owner}
use private_poker.Net.Tokens.Lookup.{get_token_with_username-owner}
use private_poker.Net.Server.{Network, respond, push_back, or_default}
use private_poker.Net.Server.Relay.{is_connect, respond_all}
use private_poker.Net.Server.Thread.{check_owner, forward, process_message}

-- The message is sent on, and its client has its username; or the client gets an error.
abbrev pub IsAnswered : {S : Type 0} → Token → ClientMessage → Network S → Network S → Type 0
IsAnswered token msg nw nw' =
    (g : Statuses) × IsSound g nw'.token_manager
    × (((nw'.sent ≡ nw.sent ++ (msg ∷ [])) × (username_of (g token) ≡ some msg.username))
        ⊎ ((nw'.sent ≡ nw.sent)
            × (e : ClientError) × (nw'.messages_to_write
                ≡ push_back token (client_error e) nw.messages_to_write)))

check_owner-ok :
    (token : Token) (o : ClientResult Token) → check_owner token o ≡ ok tt → o ≡ ok token
check_owner-ok token (ok t) e = ground (arith, e)
check_owner-ok token (err x) e = cc

module _ {S : Type 0} where
  forward-IsAnswered :
      (f : Statuses) (token : Token) (msg : ClientMessage) (nw : Network S) (tm : TokenManager S)
      (r : ClientResult (Unit {0}))
      → IsSound f tm
      → (r ≡ ok tt → username_of (f token) ≡ some msg.username)
      → IsAnswered token msg nw (forward token msg nw (tm, r))
  forward-IsAnswered f token msg nw tm (ok _) sound owner = (f, sound, inl (refl, owner refl))
  forward-IsAnswered f token msg nw tm (err e) sound owner = (f, sound, inr (refl, e, refl))

  -- A client's message, of whatever command, either reaches the game thread, and then the client's
  -- token has the message's username afterwards, or the game thread gets nothing and a client
  -- error is queued for this client. The conditions: the token manager implements statuses of the
  -- tokens that keep usernames apart, and the token has a client.
  pub process_message-IsAnswered :
      (f : Statuses) (token : Token) (msg : ClientMessage) (nw : Network S)
      → IsSound f nw.token_manager
      → is_idle (f token) ≡ false
      → IsAnswered token msg nw (process_message token msg nw)
  process_message-IsAnswered f token msg nw sound live =
      elim (Bool-cases (is_connect msg.command)) [
        | inl joins ↦
            let (g, sound', owner, _) =
              associate-owner f nw.token_manager sound token msg.username live in
            let (tm, r) = associate_token_and_username token msg.username nw.token_manager in
            rw joins (forward-IsAnswered g token msg nw tm r sound' owner)
        | inr other ↦
            let tm = nw.token_manager in
            let r = check_owner token (get_token_with_username msg.username tm) in
            rw other (
              forward-IsAnswered f token msg nw tm r sound (λ good.
                (get_token_with_username-owner f tm sound msg.username token).0
                  (check_owner-ok token (get_token_with_username msg.username tm) good)))
      ]

  -- A message for some clients is added once at the end of the queue of each of them, and no other
  -- queue changes. The condition: the clients' tokens are in ascending order, as a `BTreeMap` has
  -- them.
  pub lookup-respond_all :
      (tokens : List Token) (msg : ServerMessage) (nw : Network S) (t : Token)
      → IsAscending tokens
      → lookup t (respond_all tokens msg nw).messages_to_write ≡ (
          if contains t tokens
          then some (or_default (lookup t nw.messages_to_write) ++ (msg ∷ []))
          else lookup t nw.messages_to_write)
  unfolding respond_all contains
  lookup-respond_all [] msg nw t a = refl
  lookup-respond_all (token ∷ tokens) msg nw t a = ground (
    arith,
    lookup-respond_all tokens msg (respond token msg nw) t a.1,
    lookup-insert token t (or_default (lookup token nw.messages_to_write) ++ (msg ∷ []))
        nw.messages_to_write,
    contains-Above token tokens a.0,
  )
