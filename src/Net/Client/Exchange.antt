-- ===== src/Net/Client/Exchange.antt =====
-- What the client of private_poker/src/net/client.rs asks for over a stream is what the server does.
use private_poker.Prelude.{ℕ, ◌≡◌, ◌<◌, ◌++◌, [], List, length, u32_mod, Outcome}
use private_poker.Entities.{Username}
use private_poker.Game.{Result}
use private_poker.Game.Phases.{PokerState}
use private_poker.Game.Phases.Requests
use private_poker.Net.Io.{IoResult}
use private_poker.Net.Messages.{ClientMessage, ServerMessage, UserCommand}
use private_poker.Net.Utils.{Codec, coded, Reader, read_prefixed, write_prefixed}
use private_poker.Net.Utils.RoundTrip.{append_all}
use private_poker.Net.Server.GameThread.{perform}
use private_poker.Net.Client.{Client, Reply, received}

-- Writing to what is under way to the server.
abbrev pub write_to : Codec ClientMessage → ClientMessage → List ℕ → IoResult (Unit {0}) × List ℕ
write_to codec msg sent = write_prefixed codec append_all msg sent

-- A call of a client's method succeeds, and what the server then reads from the stream is a message
-- on which the game thread does `does`; the bytes that follow are left.
abbrev pub Asks :
    Codec ClientMessage
    → (Client (List ℕ) → Client (List ℕ) × Reply (Unit {0}))
    → Client (List ℕ)
    → Reader
    → (PokerState → Outcome (PokerState × Result UserCommand))
    → Type 0
Asks codec method client rest does =
    (c : Client (List ℕ)) × (method client ≡ (c, received tt))
    × (msg : ClientMessage) × (read_prefixed codec
          (record { bytes = c.stream ++ rest.bytes; closed = rest.closed })
        ≡ (IoResult.ok msg, rest))
    × ((s : PokerState) → perform msg.username msg.command s ≡ does s)

module _ (codec : Codec ClientMessage) (read : List ℕ → IoResult ServerMessage × List ℕ)
    (username addr : Username) (encoded : UserCommand → List ℕ) (rest : Reader)
    (encodes : (c : UserCommand)
      → codec.serialize (record { username = username; command = c }) ≡ coded (encoded c))
    (short : (c : UserCommand) → length (encoded c) < u32_mod) where
  abbrev client : Client (List ℕ)
  client = record { username = username; addr = addr; stream = [] }

  abbrev message : UserCommand → ClientMessage
  message c = record { username = username; command = c }
