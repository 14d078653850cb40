-- ===== src/Tests/Sockets.antt =====
-- Bytes, queues and waits of private_poker/src/net on small examples.
use private_poker.Prelude.{
  ℕ, ◌≡◌, ◌↔◌, refl, sym, ap, true, false, List, [], ◌∷◌, ◌++◌, some, if◌then◌else◌, done, arith,
  eq_iff,
}
use private_poker.Net.Io.{IoResult, invalid_data}
use private_poker.Net.Messages.{ClientMessage, ServerMessage, ok}
use private_poker.Net.TokenMap.{Token, lookup, insert, contains, keys}
use private_poker.Net.Tokens.{TokenManager, recycle_expired_tokens, get_token_with_username}
use private_poker.Net.Tokens.Status.{
  Statuses, unnamed, claimed, set_status, Represents, username_of, expire,
}
use private_poker.Net.Tokens.Soundness.{IsSound, unused_all}
use private_poker.Net.Tokens.Lookup.{get_token_with_username-owner}
use private_poker.Net.Tokens.Claims.{Confirms, confirm-IsSound}
use private_poker.Net.Tokens.Expiry.{recycle_expired_tokens-Represents}
use private_poker.Net.Server.{Network, or_default}
use private_poker.Net.Server.Run.{Run, running, bailed, panicked}
use private_poker.Net.Server.Relay.{respond_all}
use private_poker.Net.Server.Clients.{read_messages}
use private_poker.Net.Server.Flooding.{IsLimited, read_messages-IsLimited}
use private_poker.Net.Server.Usernames.{AllShort, read_messages-AllShort}
use private_poker.Net.Server.Ownership.{lookup-respond_all}
use private_poker.Net.Server.Thread.{start}
use private_poker.Net.Utils.{
  Codec, Coded, coded, code_error, prefixed, read_prefixed, write_prefixed, to_le_bytes,
}
use private_poker.Net.Utils.RoundTrip.{
  append_all, write_prefixed-read_prefixed, read_prefixed-short,
}
use private_poker.Tests.Net.{one_client, one_manager, one_network, one_client-IsSound, joins}

-- A codec of bytes.
abbrev byte : Coded (List ℕ) → Coded ℕ
byte (coded (b ∷ [])) = coded b
byte _ = code_error

abbrev bytes : Codec ℕ
bytes = record {
  serialize = λ b. coded (b ∷ []);
  deserialize = λ bs. byte (coded bs);
  serialize-deserialize = λ b bs e. ap byte (sym e);
}

write_prefixed-read_prefixed_example :
    (write_prefixed bytes append_all 7 [] ≡ (IoResult.ok tt, prefixed bytes (7 ∷ [])))
    × (read_prefixed bytes
          (record { bytes = prefixed bytes (7 ∷ []) ++ (1 ∷ 2 ∷ []); closed = false })
        ≡ (IoResult.ok 7, record { bytes = 1 ∷ 2 ∷ []; closed = false }))
write_prefixed-read_prefixed_example =
    write_prefixed-read_prefixed bytes 7 (7 ∷ []) (1 ∷ 2 ∷ []) false refl (omega arith)

read_prefixed-short_example :
    read_prefixed bytes (record { bytes = to_le_bytes 5 ++ (1 ∷ 2 ∷ []); closed = false })
    ≡ (IoResult.err invalid_data, record { bytes = []; closed = false })
read_prefixed-short_example =
    read_prefixed-short bytes 5 (1 ∷ 2 ∷ []) false (omega arith) (omega arith)

-- One client, who claims the username "bob".
abbrev bob_claims : Statuses
bob_claims = set_status 2 (claimed "bob") unused_all

abbrev bobs_manager : TokenManager ℕ
bobs_manager = record {
  confirmed_tokens = [];
  confirmed_usernames_to_tokens = [];
  recycled_tokens = [];
  token_association_timeout = 5;
  unconfirmed_tokens = (2, record { stream = 7; t = 0; timeout = 0 }) ∷ [];
  tokens_to_usernames = (2, "bob") ∷ [];
  unconfirmed_usernames_to_tokens = ("bob", 2) ∷ [];
}

bob_claims-IsSound : IsSound bob_claims bobs_manager
unfolding lookup insert contains
bob_claims-IsSound = record {
  fair = record { unique = λ t t' u h h'. ground arith; reserved = λ t low. ground arith };
  says = record {
    claimed_map = (refl, tt);
    confirmed_map = tt;
    ascending = tt;
    ordered = (tt, tt);
    usernames = λ t. ground arith;
    unconfirmeds = λ t. ground arith;
    confirmeds = λ t. ground arith;
    recycleds = λ t. ground arith;
    claims = λ u t. (ground (arith, eq_iff u "bob"), ground (arith, eq_iff u "bob"));
    confirms = λ u t. (ground arith, ground arith);
  };
}

get_token_with_username-owner_example :
    (get_token_with_username "bob" bobs_manager ≡ ok 2) ↔ (username_of (bob_claims 2) ≡ some "bob")
get_token_with_username-owner_example =
    get_token_with_username-owner bob_claims bobs_manager bob_claims-IsSound "bob" 2

confirm-IsSound_example : Confirms bob_claims bobs_manager bob_claims-IsSound 2
confirm-IsSound_example = confirm-IsSound bob_claims bobs_manager bob_claims-IsSound 2

recycle_expired_tokens-Represents_example :
    (o : TokenManager ℕ × List (Token × ℕ)) × (recycle_expired_tokens (λ t. 9) one_manager ≡ done o)
    × ((t : Token) → contains t (keys o.1) ≡ true → one_client t ≡ unnamed)
    × Represents (expire (keys o.1) one_client) o.0
recycle_expired_tokens-Represents_example =
    recycle_expired_tokens-Represents one_client one_manager (λ t. 9) one_client-IsSound.says

lookup-respond_all_example :
    lookup 3 (respond_all (2 ∷ 3 ∷ []) (ServerMessage.ack joins) one_network).messages_to_write ≡ (
      if contains 3 (2 ∷ 3 ∷ [])
      then some
          (or_default (lookup 3 one_network.messages_to_write) ++ (ServerMessage.ack joins ∷ []))
      else lookup 3 one_network.messages_to_write)
lookup-respond_all_example =
    lookup-respond_all (2 ∷ 3 ∷ []) (ServerMessage.ack joins) one_network 3
      ((omega arith, tt), (tt, tt))

abbrev or_start : Run (Network ℕ) → Network ℕ
or_start (running nw) = nw
or_start bailed = start 0
or_start panicked = start 0

-- A client sends six messages at once.
abbrev flood : List (IoResult ClientMessage)
flood =
    IoResult.ok joins
    ∷ IoResult.ok joins
    ∷ IoResult.ok joins
    ∷ IoResult.ok joins
    ∷ IoResult.ok joins
    ∷ IoResult.ok joins
    ∷ []

unfoldable flooded : Network ℕ
unfolding read_messages lookup insert
flooded = or_start (read_messages flood 2 one_network)

read_messages-IsLimited_example : IsLimited 2 flooded
unfolding read_messages lookup insert flooded
read_messages-IsLimited_example =
    read_messages-IsLimited 2 flood one_network flooded (omega arith) refl

read_messages-AllShort_example : AllShort flooded.messages_to_process
unfolding read_messages lookup insert flooded
read_messages-AllShort_example = read_messages-AllShort 2 flood one_network flooded tt refl
