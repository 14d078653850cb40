-- ===== src/Net/Tokens/Fairness.antt =====
-- The changes of the tokens' statuses that private_poker/src/net/server.rs makes keep usernames apart.
use private_poker.Prelude.{◌≡◌, ◌≢◌, ◌<◌, ◌∙◌, sym, true, false, List, none, some, arith}
use private_poker.Entities.{Username}
use private_poker.Net.TokenMap.{Token, contains}
use private_poker.Net.Tokens.{waker_token}
use private_poker.Net.Tokens.Status.{
  Status, Statuses, unnamed, claimed, confirmed, set_status, username_of, is_idle, expire, IsFair,
}

module _ (f : Statuses) (fair : IsFair f) where
  -- A token that is not reserved gets a status without a username.
  pub nameless-IsFair :
      (token : Token) (s : Status)
      → waker_token < token
      → username_of s ≡ none
      → IsFair (set_status token s f)
  nameless-IsFair token s above nameless = record {
    unique = λ t t' u h h'. ground (arith, fair.unique t t' u);
    reserved = λ t low. ground (arith, fair.reserved t low);
  }

  -- Tokens are expired that had clients without usernames.
  pub expire-IsFair :
      (tokens : List Token)
      → ((t : Token) → contains t tokens ≡ true → f t ≡ unnamed)
      → IsFair (expire tokens f)
  expire-IsFair tokens mine = record {
    unique = λ t t' u h h'. ground (arith, fair.unique t t' u);
    reserved = λ t low. ground (arith, fair.reserved t low, mine t);
  }

  -- A username that nobody has is claimed.
  pub claim-IsFair :
      (token : Token) (username : Username)
      → waker_token < token
      → ((t : Token) → username_of (f t) ≢ some username)
      → IsFair (set_status token (claimed username) f)
  claim-IsFair token username above nobody = record {
    unique = λ t t' u h h'. ground (arith, fair.unique t t' u, nobody t, nobody t');
    reserved = λ t low. ground (arith, fair.reserved t low);
  }

  -- A username is confirmed that the token has claimed.
  pub confirm-IsFair :
      (token : Token) (username : Username)
      → f token ≡ claimed username
      → IsFair (set_status token (confirmed username) f)
  confirm-IsFair token username mine =
      let kept : (t : Token)
          → username_of (set_status token (confirmed username) f t) ≡ username_of (f t) =
        λ t. ground (arith, mine) in
      record {
        unique = λ t t' u h h'. fair.unique t t' u (sym (kept t) ∙ h) (sym (kept t') ∙ h');
        reserved = λ t low. ground (arith, fair.reserved t low, mine);
      }

  -- A token with a client is not one of the server's own.
  pub live_unreserved : (t : Token) → is_idle (f t) ≡ false → waker_token < t
  live_unreserved t live = ground (arith, fair.reserved t)
