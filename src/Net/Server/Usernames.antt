-- ===== src/Net/Server/Usernames.antt =====
-- How long the usernames are that the network thread of private_poker/src/net/server.rs reads.
use private_poker.Prelude.{
  ◌≤◌, ◌≡◌, ap, subst, Bool-cases, inl, inr, leb, length, List, [], ◌∷◌, ◌++◌, Outcome, done, panic,
  arith, done-injective, leb→le,
}
use Prim.Native.String.{len, slice}
use text.Mathlib.Text.{is_char_boundary}
use private_poker.Entities.{Username, max_user_input_length}
use private_poker.Net.Io.{IoResult}
use private_poker.Net.Messages.{ClientMessage}
use private_poker.Net.TokenMap.{Token, TokenMap, lookup, insert}
use private_poker.Net.Server.{Network, queue_removal, or_default, max_network_events_per_user}
use private_poker.Net.Server.Run.{running, bailed, lift}
use private_poker.Net.Server.Clients.{
  truncate, Reaction, drops, waits, retries, fails, react, on_read_error, receive, read_messages,
}
use private_poker.Net.Server.Flooding.{>>=-running, running-injective}

-- A username that is read has at most 16 bytes.
truncate-len :
    (u v : Username) → truncate max_user_input_length u ≡ done v → len v ≤ max_user_input_length
truncate-len u v e = elim (Bool-cases (leb (len u) max_user_input_length)) [
  | inl short ↦
      subst (λ x. len x ≤ max_user_input_length) (done-injective (rw short at e)) (leb→le _ _ short)
  | inr long ↦ elim (Bool-cases (is_char_boundary u max_user_input_length)) [
    | inl whole ↦
        let cut : len (slice u 0 max_user_input_length) ≤ max_user_input_length =
          ground (arith, whole) in
        subst (λ x. len x ≤ max_user_input_length) (done-injective (rw (long, whole) at e)) cut
    | inr inside ↦ cc (rw (long, inside) at e)
  ]
]

lift-running : {A : Type 0} (m : Outcome A) {a : A} → lift m ≡ running a → m ≡ done a
lift-running (done a) e = ap done (running-injective e)
lift-running panic e = cc

-- The messages have usernames of at most 16 bytes.
abbrev Short : List ClientMessage → Type 0
Short [] = Unit
Short (msg ∷ msgs) = (len msg.username ≤ max_user_input_length) × Short msgs

abbrev pub AllShort : TokenMap (List ClientMessage) → Type 0
AllShort [] = Unit
AllShort (e ∷ m) = Short e.1 × AllShort m

Short-++ :
    (msgs : List ClientMessage) (msg : ClientMessage)
    → Short msgs
    → len msg.username ≤ max_user_input_length
    → Short (msgs ++ (msg ∷ []))
Short-++ [] msg h short = (short, tt)
Short-++ (x ∷ msgs) msg h short = (h.0, Short-++ msgs msg h.1 short)

Short-lookup :
    (t : Token) (m : TokenMap (List ClientMessage)) → AllShort m → Short (or_default (lookup t m))
unfolding lookup
Short-lookup t [] h = tt
Short-lookup t (e ∷ m) h = ground (arith, h.0, Short-lookup t m h.1)

AllShort-insert :
    (t : Token) (msgs : List ClientMessage) (m : TokenMap (List ClientMessage))
    → Short msgs
    → AllShort m
    → AllShort (insert t msgs m)
unfolding insert
AllShort-insert t msgs [] short h = (short, tt)
AllShort-insert t msgs (e ∷ m) short h = ground (arith, AllShort-insert t msgs m short h.1)

module _ {S : Type 0} (token : Token) where
  receive-AllShort :
      (msg : ClientMessage) (nw nw' : Network S)
      → AllShort nw.messages_to_process
      → receive token msg nw ≡ running nw'
      → AllShort nw'.messages_to_process
  receive-AllShort msg nw nw' h e =
      let (username, cuts, ends) =
        >>=-running (lift (truncate max_user_input_length msg.username)) _ e in
      let queue = or_default (lookup token nw.messages_to_process) in
      let cut : ClientMessage = record msg { username = username } in
      let few = truncate-len msg.username username (lift-running _ cuts) in
      subst (λ x. AllShort x.messages_to_process) (running-injective ends)
        (AllShort-insert token (queue ++ (cut ∷ [])) nw.messages_to_process
          (Short-++ queue cut (Short-lookup token nw.messages_to_process h) few) h)

  react-AllShort :
      (r : Reaction) (nw nw' : Network S)
      → AllShort nw.messages_to_process
      → react r (running (queue_removal token nw)) (running nw) bailed bailed ≡ running nw'
      → AllShort nw'.messages_to_process
  react-AllShort drops nw nw' h e =
      subst (λ x. AllShort x.messages_to_process) (running-injective e) h
  react-AllShort waits nw nw' h e =
      subst (λ x. AllShort x.messages_to_process) (running-injective e) h
  react-AllShort retries nw nw' h e = cc
  react-AllShort fails nw nw' h e = cc

  -- All messages that wait to be processed have usernames of at most 16 bytes after a client's
  -- messages have been read, if all had before and no error ended the thread.
  pub read_messages-AllShort :
      (rs : List (IoResult ClientMessage)) (nw nw' : Network S)
      → AllShort nw.messages_to_process
      → read_messages rs token nw ≡ running nw'
      → AllShort nw'.messages_to_process
  unfolding read_messages
  read_messages-AllShort [] nw nw' h e =
      subst (λ x. AllShort x.messages_to_process) (running-injective e) h
  read_messages-AllShort (IoResult.ok msg ∷ rs) nw nw' h e =
      let (nw1, received, rest) = >>=-running (receive token msg nw) _ e in
      let h1 = receive-AllShort msg nw nw1 h received in
      elim (Bool-cases (
        leb max_network_events_per_user
          (length (or_default (lookup token nw1.messages_to_process))))) [
            | inl spams ↦
                subst (λ x. AllShort x.messages_to_process) (running-injective (rw spams at rest))
                  h1
            | inr fine ↦ read_messages-AllShort rs nw1 nw' h1 (rw fine at rest)
          ]
  read_messages-AllShort (IoResult.err kind ∷ rs) nw nw' h e =
      react-AllShort (on_read_error kind) nw nw' h e
