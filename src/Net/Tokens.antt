-- ===== src/Net/Tokens.antt =====
-- `TokenManager` of private_poker/src/net/server.rs. A stream is any type: the manager only keeps it.
-- The times that the clock shows are arguments.
pub mod Status
pub mod Operations
pub mod Recycling
pub mod Fresh
pub mod Expiry
pub mod Fairness
pub mod Soundness
pub mod Claims
pub mod Lookup
use private_poker.Prelude.{
  ℕ, ◌+◌, ◌-◌, Bool, true, false, not, ◌&&◌, ◌||◌, String, List, [], ◌∷◌, ◌++◌, map, Option, none,
  some, max, leb, if◌then◌else◌, Outcome, done, panic, ◌>>=◌, keep_if,
}
use private_poker.Entities.{Username}
use private_poker.Entities.NameMap
use private_poker.Net.Messages.{
  ClientResult, ok, err, already_associated, does_not_exist, expired, unassociated,
}
use private_poker.Net.TokenMap.{
  Token, TokenMap, TokenSet, lookup, contains_key, insert, remove, last_key, contains, insert_token,
}

-- The token of the server's own socket, and that of its waker.
abbrev pub server_token : Token
server_token = 0

abbrev pub waker_token : Token
waker_token = 1

-- An `Instant` and a `Duration`, in any unit. The difference of two instants stops at zero.
abbrev pub Instant : Type 0
Instant = ℕ

abbrev pub Duration : Type 0
Duration = ℕ

pub record UnconfirmedClient (S : Type 0) : Type 0 where
  pub stream : S
  pub t : Instant
  pub timeout : Duration

pub record TokenManager (S : Type 0) : Type 0 where
  pub confirmed_tokens : TokenMap S
  pub confirmed_usernames_to_tokens : List (String × Token)
  pub recycled_tokens : TokenSet
  pub token_association_timeout : Duration
  pub tokens_to_usernames : TokenMap Username
  pub unconfirmed_tokens : TokenMap (UnconfirmedClient S)
  pub unconfirmed_usernames_to_tokens : List (String × Token)

abbrev pub confirmed_username : Bool → Option Username → ClientResult Username
confirmed_username true (some username) = ok username
confirmed_username _ _ = err unassociated

abbrev pub pick_token : Option Token → Option Token → ClientResult Token
pick_token (some token) none = ok token
pick_token none (some token) = ok token
pick_token _ _ = err unassociated

-- The newest of the tokens in use, or the waker's.
abbrev pub newest : Option Token → Option Token → Token
newest (some unconfirmed) (some confirmed) = max unconfirmed confirmed
newest (some unconfirmed) none = unconfirmed
newest none (some confirmed) = confirmed
newest none none = waker_token

module _ {S : Type 0} where
  -- `UnconfirmedClient::new`.
  abbrev pub new_client : Instant → S → UnconfirmedClient S
  new_client now stream = record { stream = stream; t = now; timeout = 0 }

  unfoldable pub associate_token_and_stream : Instant → Token → S → TokenManager S → TokenManager S
  associate_token_and_stream now token stream tm = record tm {
    unconfirmed_tokens = insert token (new_client now stream) tm.unconfirmed_tokens;
  }

  -- The condition under which the token or the username is taken.
  abbrev pub is_taken : Token → Username → TokenManager S → Bool
  is_taken token username tm =
      contains_key token tm.tokens_to_usernames
      || NameMap.contains_key username tm.unconfirmed_usernames_to_tokens
      || NameMap.contains_key username tm.confirmed_usernames_to_tokens

  unfoldable pub associate_token_and_username :
      Token → Username → TokenManager S → TokenManager S × ClientResult (Unit {0})
  associate_token_and_username token username tm =
      if is_taken token username tm
      then (tm, err already_associated)
      else if contains token tm.recycled_tokens
      then (tm, err expired)
      else (
        record tm {
          tokens_to_usernames = insert token username tm.tokens_to_usernames;
          unconfirmed_usernames_to_tokens =
              NameMap.insert username token tm.unconfirmed_usernames_to_tokens;
        },
        ok tt,
      )

  -- The username's token becomes a confirmed one, if a client that is not confirmed has it.
  abbrev pub confirm_entry :
      Username
      → Token
      → TokenManager S
      → Option (UnconfirmedClient S)
      → Outcome (TokenManager S × ClientResult (Unit {0}))
  confirm_entry username token tm none = panic
  confirm_entry username token tm (some client) = done (
    record tm {
      unconfirmed_usernames_to_tokens = NameMap.remove username tm.unconfirmed_usernames_to_tokens;
      unconfirmed_tokens = remove token tm.unconfirmed_tokens;
      confirmed_tokens = insert token client.stream tm.confirmed_tokens;
      confirmed_usernames_to_tokens =
          NameMap.insert username token tm.confirmed_usernames_to_tokens;
    },
    ok tt,
  )

  abbrev pub confirm_found :
      Username → Option Token → TokenManager S → Outcome (TokenManager S × ClientResult (Unit {0}))
  confirm_found username none tm = done (tm, err unassociated)
  confirm_found username (some token) tm =
      confirm_entry username token tm (lookup token tm.unconfirmed_tokens)

  abbrev pub confirm_named :
      Option Username → TokenManager S → Outcome (TokenManager S × ClientResult (Unit {0}))
  confirm_named none tm = done (tm, err unassociated)
  confirm_named (some username) tm =
      confirm_found username (NameMap.lookup username tm.unconfirmed_usernames_to_tokens) tm

  unfoldable pub confirm_username :
      Token → TokenManager S → Outcome (TokenManager S × ClientResult (Unit {0}))
  confirm_username token tm = confirm_named (lookup token tm.tokens_to_usernames) tm

  unfoldable pub get_confirmed_username_with_token : Token → TokenManager S → ClientResult Username
  get_confirmed_username_with_token token tm =
      confirmed_username (contains_key token tm.confirmed_tokens)
        (lookup token tm.tokens_to_usernames)

  -- The stream that the token's client has, of the two maps.
  abbrev pub pick_stream : Option (UnconfirmedClient S) → Option S → Outcome (ClientResult S)
  pick_stream (some client) none = done (ok client.stream)
  pick_stream none (some stream) = done (ok stream)
  pick_stream none none = done (err does_not_exist)
  pick_stream (some _) (some _) = panic

  unfoldable pub get_mut_stream_with_token : Token → TokenManager S → Outcome (ClientResult S)
  get_mut_stream_with_token token tm =
      pick_stream (lookup token tm.unconfirmed_tokens) (lookup token tm.confirmed_tokens)

  unfoldable pub get_token_with_username : Username → TokenManager S → ClientResult Token
  get_token_with_username username tm =
      pick_token (NameMap.lookup username tm.unconfirmed_usernames_to_tokens)
        (NameMap.lookup username tm.confirmed_usernames_to_tokens)

  -- `TokenManager::new`.
  unfoldable pub new : Duration → TokenManager S
  new timeout = record {
    confirmed_tokens = [];
    confirmed_usernames_to_tokens = [];
    recycled_tokens = [];
    token_association_timeout = timeout;
    tokens_to_usernames = [];
    unconfirmed_tokens = [];
    unconfirmed_usernames_to_tokens = [];
  }

  abbrev pub pop_token : TokenSet → TokenManager S → TokenManager S × Token
  pop_token [] tm = (tm, newest (last_key tm.unconfirmed_tokens) (last_key tm.confirmed_tokens) + 1)
  pop_token (token ∷ tokens) tm = (record tm { recycled_tokens = tokens }, token)

  unfoldable pub new_token : TokenManager S → TokenManager S × Token
  new_token tm = pop_token tm.recycled_tokens tm

  -- One round of the first loop: the client's waiting time grows by what passed since the last look.
  abbrev pub age : Instant → UnconfirmedClient S → UnconfirmedClient S
  age now client = record client { t = now; timeout = client.timeout + (now - client.t) }

  -- The first loop over the clients without a username, with the clock at each of them.
  unfoldable pub age_all :
      (Token → Instant)
      → TokenMap Username
      → TokenMap (UnconfirmedClient S)
      → TokenMap (UnconfirmedClient S)
  age_all now names [] = []
  age_all now names (e ∷ m) =
      (if contains_key e.0 names then e else (e.0, age (now e.0) e.1)) ∷ age_all now names m

  -- The tokens that the first loop collects, after it has aged their clients.
  unfoldable pub stale : TokenMap Username → Duration → TokenMap (UnconfirmedClient S) → List Token
  stale names limit [] = []
  stale names limit (e ∷ m) =
      let rest = stale names limit m in
      if not (contains_key e.0 names) && leb limit e.1.timeout then e.0 ∷ rest else rest

  -- The second loop: a token that is not unconfirmed is `unreachable!`.
  unfoldable pub recycle_all :
      List Token → TokenManager S → Outcome (TokenManager S × List (Token × S))
  recycle_all [] tm = done (tm, [])
  recycle_all (token ∷ tokens) tm = elim (lookup token tm.unconfirmed_tokens) [
    | none ↦ panic
    | some client ↦
        recycle_all tokens (record tm {
          unconfirmed_tokens = remove token tm.unconfirmed_tokens;
          recycled_tokens = insert_token token tm.recycled_tokens;
        })
        >>= λ r. done (r.0, (token, client.stream) ∷ r.1)
  ]

  unfoldable pub recycle_expired_tokens :
      (Token → Instant) → TokenManager S → Outcome (TokenManager S × List (Token × S))
  unfolding age_all stale recycle_all
  recycle_expired_tokens now tm =
      let aged = age_all now tm.tokens_to_usernames tm.unconfirmed_tokens in
      recycle_all (stale tm.tokens_to_usernames tm.token_association_timeout aged)
        (record tm { unconfirmed_tokens = aged })

  -- The token loses its username.
  abbrev pub forget_username : Token → Option Username → TokenManager S → TokenManager S
  forget_username token none tm = tm
  forget_username token (some username) tm = record tm {
    tokens_to_usernames = remove token tm.tokens_to_usernames;
    unconfirmed_usernames_to_tokens = NameMap.remove username tm.unconfirmed_usernames_to_tokens;
    confirmed_usernames_to_tokens = NameMap.remove username tm.confirmed_usernames_to_tokens;
  }

  -- The token loses its stream and can be given out again.
  abbrev pub free_token : Token → TokenManager S → ClientResult S → TokenManager S × ClientResult S
  free_token token tm (err e) = (
    record tm {
      unconfirmed_tokens = remove token tm.unconfirmed_tokens;
      confirmed_tokens = remove token tm.confirmed_tokens;
    },
    err e,
  )
  free_token token tm (ok stream) = (
    record tm {
      unconfirmed_tokens = remove token tm.unconfirmed_tokens;
      confirmed_tokens = remove token tm.confirmed_tokens;
      recycled_tokens = insert_token token tm.recycled_tokens;
    },
    ok stream,
  )

  unfoldable pub recycle_token : Token → TokenManager S → Outcome (TokenManager S × ClientResult S)
  unfolding get_mut_stream_with_token
  recycle_token token tm =
      let tm' = forget_username token (lookup token tm.tokens_to_usernames) tm in
      get_mut_stream_with_token token tm' >>= λ r. done (free_token token tm' r)
