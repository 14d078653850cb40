-- ===== src/Net/Tokens/Status.antt =====
-- What the `TokenManager` of private_poker/src/net/server.rs promises: each token has one status, and
-- the maps are views of it.
use private_poker.Prelude.{
  ◌≡◌, ◌<◌, ◌↔◌, Bool, true, false, Option, List, none, some, if◌then◌else◌, ◌==◌,
}
use private_poker.Entities.{Username}
use private_poker.Entities.NameMap
use private_poker.Entities.NameMap.Laws.{IsMap}
use private_poker.Net.TokenMap.{Token, lookup, contains_key, contains, IsAscending, IsOrdered}
use private_poker.Net.Tokens.{TokenManager}

-- A token that was never given out, or is kept for others; one to give out again; one with a client
-- that has no username, that claims one, or whose username the game has confirmed.
pub data Status : Type 0 where
  unused recycled unnamed : Status
  claimed confirmed : Username → Status

abbrev pub Statuses : Type 0
Statuses = Token → Status

abbrev pub set_status : Token → Status → Statuses → Statuses
set_status token s f t = if t == token then s else f t

-- The statuses after some tokens have expired.
abbrev pub expire : List Token → Statuses → Statuses
expire tokens f t = if contains t tokens then recycled else f t

abbrev pub username_of : Status → Option Username
username_of (claimed u) = some u
username_of (confirmed u) = some u
username_of _ = none

abbrev pub is_unconfirmed : Status → Bool
is_unconfirmed unnamed = true
is_unconfirmed (claimed u) = true
is_unconfirmed _ = false

abbrev pub is_confirmed : Status → Bool
is_confirmed (confirmed u) = true
is_confirmed _ = false

abbrev pub is_recycled : Status → Bool
is_recycled recycled = true
is_recycled _ = false

-- No client has the token.
abbrev pub is_idle : Status → Bool
is_idle unused = true
is_idle recycled = true
is_idle _ = false

-- The manager's maps and sets say of each token and of each username what its status says.
pub record Represents {S : Type 0} (f : Statuses) (tm : TokenManager S) : Type 0 where
  pub claimed_map : IsMap tm.unconfirmed_usernames_to_tokens
  pub confirmed_map : IsMap tm.confirmed_usernames_to_tokens
  pub ascending : IsAscending tm.recycled_tokens
  pub ordered : IsOrdered tm.unconfirmed_tokens
  pub usernames : (t : Token) → lookup t tm.tokens_to_usernames ≡ username_of (f t)
  pub unconfirmeds : (t : Token) → contains_key t tm.unconfirmed_tokens ≡ is_unconfirmed (f t)
  pub confirmeds : (t : Token) → contains_key t tm.confirmed_tokens ≡ is_confirmed (f t)
  pub recycleds : (t : Token) → contains t tm.recycled_tokens ≡ is_recycled (f t)
  pub claims :
      (u : Username) (t : Token)
      → (NameMap.lookup u tm.unconfirmed_usernames_to_tokens ≡ some t) ↔ (f t ≡ claimed u)
  pub confirms :
      (u : Username) (t : Token)
      → (NameMap.lookup u tm.confirmed_usernames_to_tokens ≡ some t) ↔ (f t ≡ confirmed u)

-- No two tokens have one username, and the tokens of the server's own sockets are never given out.
pub record IsFair (f : Statuses) : Type 0 where
  pub unique :
      (t t' : Token) (u : Username)
      → username_of (f t) ≡ some u
      → username_of (f t') ≡ some u
      → t ≡ t'
  pub reserved : (t : Token) → t < 2 → f t ≡ unused
