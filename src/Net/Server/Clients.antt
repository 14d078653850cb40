-- ===== src/Net/Server/Clients.antt =====
-- The arm of the network thread of private_poker/src/net/server.rs for an event of a client's socket.
-- What the socket does is the list of the results that reads and writes return, after which they
-- would block.
use Prim.Native.String.{len, slice}
use text.Mathlib.Text.{is_char_boundary}
use private_poker.Prelude.{
  ℕ, Bool, true, false, List, [], ◌∷◌, Option, none, some, leb, length, if◌then◌else◌, Outcome,
  done, panic,
}
use private_poker.Entities.{Username, max_user_input_length}
use private_poker.Net.Messages.{ClientMessage, ServerMessage, ClientResult, ok, err, client_error}
use private_poker.Net.TokenMap.{Token, lookup, insert, contains}
use private_poker.Net.Tokens.{get_mut_stream_with_token}
use private_poker.Net.Io.{
  ErrorKind, broken_pipe, connection_aborted, connection_reset, invalid_data, timed_out,
  unexpected_eof, would_block, write_zero, IoResult,
}
use private_poker.Net.Server.{
  Network, max_network_events_per_user, queue_removal, push_back, or_default,
}
use private_poker.Net.Server.Run.{Run, running, bailed, ◌>>=◌, lift}

-- `String::truncate`, which panics inside a character.
abbrev pub truncate : ℕ → Username → Outcome Username
truncate n s =
    if leb (len s) n then done s else if is_char_boundary s n then done (slice s 0 n) else panic

-- What the thread does about an error: it drops the client, waits, tries again or ends.
pub data Reaction : Type 0 where
  drops waits retries fails : Reaction

abbrev pub on_write_error : ErrorKind → Reaction
on_write_error broken_pipe = drops
on_write_error connection_aborted = drops
on_write_error connection_reset = drops
on_write_error timed_out = drops
on_write_error unexpected_eof = drops
on_write_error would_block = waits
on_write_error write_zero = retries
on_write_error _ = fails

abbrev pub on_read_error : ErrorKind → Reaction
on_read_error broken_pipe = drops
on_read_error connection_aborted = drops
on_read_error connection_reset = drops
on_read_error invalid_data = drops
on_read_error timed_out = drops
on_read_error unexpected_eof = drops
on_read_error would_block = waits
on_read_error _ = fails

abbrev pub react {ℓ} : {A : Type ℓ} → Reaction → A → A → A → A → A
react drops a b c d = a
react waits a b c d = b
react retries a b c d = c
react fails a b c d = d

abbrev pub is_client_error : ServerMessage → Bool
is_client_error (client_error _) = true
is_client_error _ = false

module _ {S : Type 0} where
  abbrev pub set_queue : Token → List ServerMessage → Network S → Network S
  set_queue token msgs nw = record nw { messages_to_write = insert token msgs nw.messages_to_write }

  -- The loop that writes the queue.
  unfoldable pub write_messages :
      List (Option ErrorKind) → Token → List ServerMessage → Network S → Run (Network S)
  write_messages rs token [] nw = running (set_queue token [] nw)
  write_messages [] token (msg ∷ msgs) nw = running (set_queue token (msg ∷ msgs) nw)
  write_messages (none ∷ rs) token (msg ∷ msgs) nw =
      let rest = write_messages rs token msgs nw in
      if is_client_error msg then running (queue_removal token (set_queue token msgs nw)) else rest
  write_messages (some kind ∷ rs) token (msg ∷ msgs) nw =
      let rest = write_messages rs token (msg ∷ msgs) nw in
      react (on_write_error kind) (running (queue_removal token (set_queue token msgs nw)))
        (running (set_queue token (msg ∷ msgs) nw)) rest bailed

  -- A message that was read is queued, under a username of at most 16 bytes.
  abbrev pub receive : Token → ClientMessage → Network S → Run (Network S)
  receive token msg nw = lift (truncate max_user_input_length msg.username) >>= λ username.
      running (record nw {
        messages_to_process =
            push_back token (record msg { username = username }) nw.messages_to_process;
      })

  -- The loop that reads, until a client has sent too much.
  unfoldable pub read_messages : List (IoResult ClientMessage) → Token → Network S → Run (Network S)
  read_messages [] token nw = running nw
  read_messages (IoResult.ok msg ∷ rs) token nw = receive token msg nw >>= λ nw'.
      let rest = read_messages rs token nw' in
      if leb max_network_events_per_user
        (length (or_default (lookup token nw'.messages_to_process)))
      then running (queue_removal token nw')
      else rest
  read_messages (IoResult.err kind ∷ rs) token nw =
      react (on_read_error kind) (running (queue_removal token nw)) (running nw) bailed bailed

  abbrev pub on_readable :
      Option (List (IoResult ClientMessage)) → Token → Network S → Run (Network S)
  on_readable none token nw = running nw
  on_readable (some rs) token nw = read_messages rs token nw

  -- A client with too many messages to be written is removed, and nothing is read from it.
  abbrev pub on_queue :
      ℕ
      → List (Option ErrorKind)
      → Option (List (IoResult ClientMessage))
      → Token
      → Option (List ServerMessage)
      → Network S
      → Run (Network S)
  on_queue max_network_events ws readable token none nw = on_readable readable token nw
  on_queue max_network_events ws readable token (some msgs) nw =
      if leb max_network_events (length msgs)
      then running (queue_removal token nw)
      else write_messages ws token msgs nw >>= λ nw'. on_readable readable token nw'

  abbrev pub on_writable :
      ℕ
      → Option (List (Option ErrorKind))
      → Option (List (IoResult ClientMessage))
      → Token
      → Network S
      → Run (Network S)
  on_writable max_network_events none readable token nw = on_readable readable token nw
  on_writable max_network_events (some ws) readable token nw =
      on_queue max_network_events ws readable token (lookup token nw.messages_to_write) nw

  abbrev pub on_stream :
      ℕ
      → Option (List (Option ErrorKind))
      → Option (List (IoResult ClientMessage))
      → Token
      → ClientResult S
      → Network S
      → Run (Network S)
  on_stream max_network_events writable readable token (err _) nw = running nw
  on_stream max_network_events writable readable token (ok _) nw =
      on_writable max_network_events writable readable token nw

  unfoldable pub on_client :
      ℕ
      → Token
      → Option (List (Option ErrorKind))
      → Option (List (IoResult ClientMessage))
      → Network S
      → Run (Network S)
  unfolding write_messages read_messages
  on_client max_network_events token writable readable nw =
      if contains token nw.tokens_to_remove
      then running nw
      else (lift (get_mut_stream_with_token token nw.token_manager) >>= λ r.
          on_stream max_network_events writable readable token r nw)
