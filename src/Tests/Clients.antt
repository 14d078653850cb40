-- ===== src/Tests/Clients.antt =====
-- A client of private_poker/src/net/client.rs that talks to the server.
use private_poker.Prelude.{ℕ, false, List, [], ◌∷◌, Bool, ltb}
use private_poker.Game.Phases.Requests
use private_poker.Net.Io.{IoResult, would_block}
use private_poker.Net.Messages.{ServerMessage}
use private_poker.Net.Tokens.{Duration}
use private_poker.Net.Utils.{Reader, prefixed}
use private_poker.Net.Client
use private_poker.Net.Client.{Client}
use private_poker.Tests.Codecs.{server_codec}

abbrev silent : List ℕ → IoResult ServerMessage × List ℕ
silent s = (IoResult.err would_block, s)

abbrev bob : Client (List ℕ)
bob = record { username = "bob"; addr = "localhost"; stream = [] }

abbrev nothing_more : Reader
nothing_more = record { bytes = 9 ∷ []; closed = false }

-- What the server sends when Bob is welcome, and when the table is full.
abbrev greeting : List ℕ
greeting = prefixed server_codec (0 ∷ 0 ∷ [])

abbrev first_view : List ℕ
first_view = prefixed server_codec (2 ∷ 0 ∷ 5 ∷ 10 ∷ 0 ∷ 0 ∷ 1 ∷ [])

-- The first dial fails.
abbrev is_up : Duration → Bool
is_up t = ltb 100000000 t
