-- ===== src/Net/Server/Flooding.antt =====
-- How much the network thread of private_poker/src/net/server.rs reads from a client in a turn.
use private_poker.Prelude.{
  ℕ, ◌+◌, ◌<◌, ◌≡◌, ◌⊎◌, refl, subst, true, Bool-cases, inl, inr, leb, length, length-append, List,
  [], ◌∷◌, ◌++◌, arith, leb→le, leb→lt,
}
use private_poker.Entities.{max_user_input_length}
use private_poker.Net.Io.{IoResult}
use private_poker.Net.Messages.{ClientMessage}
use private_poker.Net.TokenMap.{Token, lookup, contains, lookup-insert, contains-insert_token}
use private_poker.Net.Server.{Network, queue_removal, or_default, max_network_events_per_user}
use private_poker.Net.Server.Run.{Run, running, bailed, panicked, ◌>>=◌, lift}
use private_poker.Net.Server.Clients.{
  truncate, Reaction, drops, waits, retries, fails, react, on_read_error, receive, read_messages,
}

-- The messages that wait for a client, and how many they are.
abbrev pub waiting : {S : Type 0} → Token → Network S → ℕ
waiting token nw = length (or_default (lookup token nw.messages_to_process))

-- A client has at most six messages that wait, and one with six is to be removed.
abbrev pub IsLimited : {S : Type 0} → Token → Network S → Type 0
IsLimited token nw =
    (waiting token nw < max_network_events_per_user)
    ⊎ ((waiting token nw ≡ max_network_events_per_user)
        × (contains token nw.tokens_to_remove ≡ true))

pub >>=-running :
    {A B : Type 0} (m : Run A) (k : A → Run B) {b : B}
    → (m >>= k) ≡ running b
    → (a : A) × (m ≡ running a) × (k a ≡ running b)
>>=-running (running a) k e = (a, refl, e)
>>=-running bailed k e = cc
>>=-running panicked k e = cc

pub running-injective : {A : Type 0} {a b : A} → running a ≡ running b → a ≡ b
running-injective e = cc

module _ {S : Type 0} (token : Token) where
  receive-waiting :
      (msg : ClientMessage) (nw nw' : Network S)
      → receive token msg nw ≡ running nw'
      → waiting token nw' ≡ waiting token nw + 1
  receive-waiting msg nw nw' e =
      let (username, _, ends) =
        >>=-running (lift (truncate max_user_input_length msg.username)) _ e in
      let queue = or_default (lookup token nw.messages_to_process) in
      let cut : ClientMessage = record msg { username = username } in
      let found = lookup-insert token token (queue ++ (cut ∷ [])) nw.messages_to_process in
      subst (λ x. waiting token x ≡ waiting token nw + 1) (running-injective ends)
        (ground (arith, found, length-append queue (cut ∷ [])))

  react-IsLimited :
      (r : Reaction) (nw nw' : Network S)
      → waiting token nw < max_network_events_per_user
      → react r (running (queue_removal token nw)) (running nw) bailed bailed ≡ running nw'
      → IsLimited token nw'
  react-IsLimited drops nw nw' few e = subst (IsLimited token) (running-injective e) (inl few)
  react-IsLimited waits nw nw' few e = subst (IsLimited token) (running-injective e) (inl few)
  react-IsLimited retries nw nw' few e = cc
  react-IsLimited fails nw nw' few e = cc

  -- After the messages of a client have been read, fewer than six of them wait, or exactly six do
  -- and the client is to be removed. The conditions: fewer than six waited before, and no error
  -- ended the thread.
  pub read_messages-IsLimited :
      (rs : List (IoResult ClientMessage)) (nw nw' : Network S)
      → waiting token nw < max_network_events_per_user
      → read_messages rs token nw ≡ running nw'
      → IsLimited token nw'
  unfolding read_messages
  read_messages-IsLimited [] nw nw' few e = subst (IsLimited token) (running-injective e) (inl few)
  read_messages-IsLimited (IoResult.ok msg ∷ rs) nw nw' few e =
      let (nw1, received, rest) = >>=-running (receive token msg nw) _ e in
      let more = receive-waiting msg nw nw1 received in
      elim (Bool-cases (leb max_network_events_per_user (waiting token nw1))) [
        | inl spams ↦
            let full : waiting token nw1 ≡ max_network_events_per_user =
              omega (arith, few, more, leb→le _ _ spams) in
            let marked : contains token (queue_removal token nw1).tokens_to_remove ≡ true =
              ground (arith, contains-insert_token token token nw1.tokens_to_remove) in
            subst (IsLimited token) (running-injective (rw spams at rest)) (inr (full, marked))
        | inr fine ↦ read_messages-IsLimited rs nw1 nw' (leb→lt _ _ fine) (rw fine at rest)
      ]
  read_messages-IsLimited (IoResult.err kind ∷ rs) nw nw' few e =
      react-IsLimited (on_read_error kind) nw nw' few e
