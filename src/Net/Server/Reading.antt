-- ===== src/Net/Server/Reading.antt =====
-- An event of a client's socket, in private_poker/src/net/server.rs, keeps the state consistent, when the
-- usernames that are read can be truncated.
use private_poker.Prelude.{
  ◌≡◌, refl, Bool, true, false, ◌||◌, leb, length, Bool-cases, inl, inr, ℕ, List, [], ◌∷◌, ◌++◌,
  Option, none, some, done,
}
use Prim.Native.String.{len, slice}
use text.Mathlib.Text.{is_char_boundary}
use private_poker.Entities.{Username, max_user_input_length}
use private_poker.Net.Io.{ErrorKind, IoResult}
use private_poker.Net.Messages.{ClientMessage, ServerMessage, ClientResult, ok, err}
use private_poker.Net.TokenMap.{Token, contains, lookup}
use private_poker.Net.Tokens.Status.{is_idle, Statuses}
use private_poker.Net.Tokens.Soundness.{IsSound, StreamSays, get_mut_stream_with_token-done}
use private_poker.Net.Server.{Network, or_default, max_network_events_per_user}
use private_poker.Net.Server.Run.{Run, running, bailed, panicked, ◌>>=◌}
use private_poker.Net.Server.Clients.{
  truncate, Reaction, drops, waits, retries, fails, on_write_error, on_read_error, is_client_error,
  react, write_messages, receive, read_messages, on_readable, on_queue, on_stream, on_client,
}
use private_poker.Net.Server.Consistency.{AllLive, AllLive-insert, IsConsistent, Keeps}

-- A username that `truncate` can cut: it has at most 16 bytes, or a character begins at byte 16.
abbrev pub is_cuttable : Username → Bool
is_cuttable u = leb (len u) max_user_input_length || is_char_boundary u max_user_input_length

truncate-done :
    (u : Username)
    → is_cuttable u ≡ true
    → (v : Username) × (truncate max_user_input_length u ≡ done v)
truncate-done u cuttable = elim (Bool-cases (leb (len u) max_user_input_length)) [
  | inl short ↦ (u, rw short refl)
  | inr long ↦ (slice u 0 max_user_input_length, rw (long, rw long at cuttable) refl)
]

-- An error that ends the thread is one for which `B` holds.
abbrev pub ReadExcuse : Type 0 → Reaction → Type 0
ReadExcuse B drops = Unit
ReadExcuse B waits = Unit
ReadExcuse B retries = B
ReadExcuse B fails = B

abbrev pub WriteExcuse : Type 0 → Reaction → Type 0
WriteExcuse B drops = Unit
WriteExcuse B waits = Unit
WriteExcuse B retries = Unit
WriteExcuse B fails = B

-- What is read has usernames that can be cut, and the errors of reading and writing are excused.
abbrev pub AllReadable : Type 0 → List (IoResult ClientMessage) → Type 0
AllReadable B [] = Unit
AllReadable B (IoResult.ok msg ∷ rs) = (is_cuttable msg.username ≡ true) × AllReadable B rs
AllReadable B (IoResult.err kind ∷ rs) = ReadExcuse B (on_read_error kind) × AllReadable B rs

abbrev pub AnyReadable : Type 0 → Option (List (IoResult ClientMessage)) → Type 0
AnyReadable B none = Unit
AnyReadable B (some rs) = AllReadable B rs

abbrev pub AllWritable : Type 0 → List (Option ErrorKind) → Type 0
AllWritable B [] = Unit
AllWritable B (none ∷ ws) = AllWritable B ws
AllWritable B (some kind ∷ ws) = WriteExcuse B (on_write_error kind) × AllWritable B ws

abbrev pub AnyWritable : Type 0 → Option (List (Option ErrorKind)) → Type 0
AnyWritable B none = Unit
AnyWritable B (some ws) = AllWritable B ws

-- A consistent state in which a given token has a client.
abbrev ConsistentFor : {S : Type 0} → Statuses → Token → Network S → Type 0
ConsistentFor f token nw =
    (is_idle (f token) ≡ false) × IsSound f nw.token_manager × AllLive f nw.messages_to_process

abbrev KeepsFor : {S : Type 0} → Type 0 → Statuses → Token → Run (Network S) → Type 0
KeepsFor B f token (running nw) = ConsistentFor f token nw
KeepsFor B f token bailed = B
KeepsFor B f token panicked = ⊥

module _ {S : Type 0} (B : Type 0) (f : Statuses) (token : Token) where
  KeepsFor->>= :
      (m : Run (Network S)) (k : Network S → Run (Network S))
      → KeepsFor B f token m
      → ((nw : Network S) → ConsistentFor f token nw → KeepsFor B f token (k nw))
      → KeepsFor B f token (m >>= k)
  KeepsFor->>= (running nw) k h next = next nw h
  KeepsFor->>= bailed k h next = h
  KeepsFor->>= panicked k h next = h

  KeepsFor-Keeps : (m : Run (Network S)) → KeepsFor B f token m → Keeps B m
  KeepsFor-Keeps (running nw) h = record { statuses = f; sound = h.1; live = h.2 }
  KeepsFor-Keeps bailed h = h
  KeepsFor-Keeps panicked h = h

  write-react :
      (r : Reaction) (a b c : Run (Network S))
      → KeepsFor B f token a
      → KeepsFor B f token b
      → KeepsFor B f token c
      → WriteExcuse B r
      → KeepsFor B f token (react r a b c bailed)
  write-react drops a b c ha hb hc excuse = ha
  write-react waits a b c ha hb hc excuse = hb
  write-react retries a b c ha hb hc excuse = hc
  write-react fails a b c ha hb hc excuse = excuse

  read-react :
      (r : Reaction) (a b : Run (Network S))
      → KeepsFor B f token a
      → KeepsFor B f token b
      → ReadExcuse B r
      → KeepsFor B f token (react r a b bailed bailed)
  read-react drops a b ha hb excuse = ha
  read-react waits a b ha hb excuse = hb
  read-react retries a b ha hb excuse = excuse
  read-react fails a b ha hb excuse = excuse

  write_messages-Keeps :
      (rs : List (Option ErrorKind)) (msgs : List ServerMessage) (nw : Network S)
      → AllWritable B rs
      → ConsistentFor f token nw
      → KeepsFor B f token (write_messages rs token msgs nw)
  unfolding write_messages
  write_messages-Keeps rs [] nw good c = c
  write_messages-Keeps [] (msg ∷ msgs) nw good c = c
  write_messages-Keeps (none ∷ rs) (msg ∷ msgs) nw good c =
      elim (Bool-cases (is_client_error msg)) [
        | inl fatal ↦ rw fatal c
        | inr fine ↦ rw fine (write_messages-Keeps rs msgs nw good c)
      ]
  write_messages-Keeps (some kind ∷ rs) (msg ∷ msgs) nw good c =
      write-react (on_write_error kind) _ _ _ c c (write_messages-Keeps rs (msg ∷ msgs) nw good.1 c)
        good.0

  receive-Keeps :
      (msg : ClientMessage) (nw : Network S)
      → is_cuttable msg.username ≡ true
      → ConsistentFor f token nw
      → KeepsFor B f token (receive token msg nw)
  receive-Keeps msg nw cuttable (live, sound, lives) =
      let (username, runs) = truncate-done msg.username cuttable in
      rw runs (
        live,
        sound,
        AllLive-insert f token
            (or_default (lookup token nw.messages_to_process)
              ++ ((record msg { username = username }) ∷ []))
            nw.messages_to_process live lives,
      )

  read_messages-Keeps :
      (rs : List (IoResult ClientMessage)) (nw : Network S)
      → AllReadable B rs
      → ConsistentFor f token nw
      → KeepsFor B f token (read_messages rs token nw)
  unfolding read_messages
  read_messages-Keeps [] nw cut c = c
  read_messages-Keeps (IoResult.ok msg ∷ rs) nw cut c =
      KeepsFor->>= (receive token msg nw) _ (receive-Keeps msg nw cut.0 c) (λ nw' c'.
        elim (Bool-cases (
          leb max_network_events_per_user
            (length (or_default (lookup token nw'.messages_to_process))))) [
              | inl spams ↦ rw spams c'
              | inr fine ↦ rw fine (read_messages-Keeps rs nw' cut.1 c')
            ])
  read_messages-Keeps (IoResult.err kind ∷ rs) nw cut c =
      read-react (on_read_error kind) _ _ c c cut.0

  on_readable-Keeps :
      (readable : Option (List (IoResult ClientMessage))) (nw : Network S)
      → AnyReadable B readable
      → ConsistentFor f token nw
      → KeepsFor B f token (on_readable readable token nw)
  on_readable-Keeps none nw cut c = c
  on_readable-Keeps (some rs) nw cut c = read_messages-Keeps rs nw cut c

  on_queue-Keeps :
      (n : ℕ) (ws : List (Option ErrorKind)) (readable : Option (List (IoResult ClientMessage)))
      (queue : Option (List ServerMessage)) (nw : Network S)
      → AllWritable B ws
      → AnyReadable B readable
      → ConsistentFor f token nw
      → KeepsFor B f token (on_queue n ws readable token queue nw)
  on_queue-Keeps n ws readable none nw good cut c = on_readable-Keeps readable nw cut c
  on_queue-Keeps n ws readable (some msgs) nw good cut c = elim (Bool-cases (leb n (length msgs))) [
    | inl full ↦ rw full c
    | inr fine ↦ rw fine (
        KeepsFor->>= (write_messages ws token msgs nw) _ (write_messages-Keeps ws msgs nw good c)
          (λ nw' c'. on_readable-Keeps readable nw' cut c'))
  ]

  on_stream-Keeps :
      (n : ℕ) (writable : Option (List (Option ErrorKind)))
      (readable : Option (List (IoResult ClientMessage))) (stream : S) (nw : Network S)
      → AnyWritable B writable
      → AnyReadable B readable
      → ConsistentFor f token nw
      → KeepsFor B f token (on_stream n writable readable token (ok stream) nw)
  on_stream-Keeps n none readable stream nw good cut c = on_readable-Keeps readable nw cut c
  on_stream-Keeps n (some ws) readable stream nw good cut c =
      on_queue-Keeps n ws readable (lookup token nw.messages_to_write) nw good cut c

module _ {S : Type 0} (B : Type 0) where
  on_found-Keeps :
      (n : ℕ) (token : Token) (writable : Option (List (Option ErrorKind)))
      (readable : Option (List (IoResult ClientMessage))) (o : ClientResult S) (nw : Network S)
      (c : IsConsistent nw)
      → AnyWritable B writable
      → AnyReadable B readable
      → StreamSays o (c.statuses token)
      → Keeps B (on_stream n writable readable token o nw)
  on_found-Keeps n token writable readable (err e) nw c good cut says = c
  on_found-Keeps n token writable readable (ok stream) nw c good cut says =
      KeepsFor-Keeps B c.statuses token (on_stream n writable readable token (ok stream) nw) (
        on_stream-Keeps B c.statuses token n writable readable stream nw good cut
          (says, c.sound, c.live))

  pub on_client-Keeps :
      (n : ℕ) (token : Token) (writable : Option (List (Option ErrorKind)))
      (readable : Option (List (IoResult ClientMessage))) (nw : Network S)
      → IsConsistent nw
      → AnyWritable B writable
      → AnyReadable B readable
      → Keeps B (on_client n token writable readable nw)
  unfolding on_client
  on_client-Keeps n token writable readable nw c good cut =
      let (o, runs, says) =
        get_mut_stream_with_token-done c.statuses nw.token_manager c.sound token in
      elim (Bool-cases (contains token nw.tokens_to_remove)) [
        | inl leaving ↦ rw leaving c
        | inr stays ↦
            rw (stays, runs) (on_found-Keeps n token writable readable o nw c good cut says)
      ]
