-- ===== src/Net/Client/Handshake.antt =====
-- How a client of private_poker/src/net/client.rs connects, over streams of bytes in both directions.
use private_poker.Prelude.{ℕ, ◌≡◌, ◌∷◌, [], List, Bool, Option, none, some, false, if◌then◌else◌}
use private_poker.Entities.{Username}
use private_poker.Game.Views.{GameView}
use private_poker.Net.Io.{IoResult}
use private_poker.Net.Messages.{ClientMessage, ServerMessage, UserCommand}
use private_poker.Net.Tokens.{Duration}
use private_poker.Net.Utils.{Codec, Reader, read_prefixed, write_prefixed}
use private_poker.Net.Utils.RoundTrip.{append_all}
use private_poker.Net.Client.{Client, Reply, connect, attempts}

-- A stream is what the server has sent and what was sent to it.
abbrev pub Stream : Type 0
Stream = Reader × List ℕ

abbrev pub read_stream : Codec ServerMessage → Stream → IoResult ServerMessage × Stream
read_stream codec (r, sent) = let (m, r') = read_prefixed codec r in (m, (r', sent))

abbrev pub write_stream :
    Codec ClientMessage → ClientMessage → Stream → IoResult (Unit {0}) × Stream
write_stream codec msg (r, sent) =
    let (m, sent') = write_prefixed codec append_all msg sent in (m, (r, sent'))

-- An operation on one direction, beside the other.
abbrev beside {ℓ} : {A : Type ℓ} → List ℕ → A × Reader → A × Stream
beside sent (m, r) = (m, (r, sent))

abbrev ahead {ℓ} : {A : Type ℓ} → Reader → A × List ℕ → A × Stream
ahead r (m, sent) = (m, (r, sent))

-- Dialling gives the stream within the timeouts that the server is up for.
abbrev pub dials : (Duration → Bool) → Stream → Duration → Option Stream
dials is_up s t = if is_up t then some s else none

abbrev pub AllFail : (Duration → Bool) → List Duration → Type 0
AllFail is_up [] = Unit
AllFail is_up (t ∷ ts) = (is_up t ≡ false) × AllFail is_up ts

module _ {S : Type 0} (read : S → IoResult ServerMessage × S)
    (write : ClientMessage → S → IoResult (Unit {0}) × S) (username addr : Username) where
  abbrev hello : ClientMessage
  hello = record { username = username; command = UserCommand.connect }

module _ (client_codec : Codec ClientMessage) (server_codec : Codec ServerMessage)
    (username addr : Username) (is_up : Duration → Bool) where
  abbrev dialled : Stream → List Duration → Reply (Client Stream × GameView)
  dialled s ts =
      attempts (read_stream server_codec) (write_stream client_codec) (dials is_up s) username addr
        ts
