-- ===== src/Net/Tokens/Lookup.antt =====
-- Which token `get_token_with_username` of private_poker/src/net/server.rs finds, and which username
-- `get_confirmed_username_with_token`.
use private_poker.Prelude.{◌≡◌, ◌↔◌, refl, ap, ◌⊎◌, inl, inr, Option, none, some, Option-cases}
use private_poker.Entities.{Username}
use private_poker.Entities.NameMap
use private_poker.Net.Messages.{ok}
use private_poker.Net.TokenMap.{Token}
use private_poker.Net.Tokens.{
  TokenManager, pick_token, get_token_with_username, get_confirmed_username_with_token,
  confirmed_username,
}
use private_poker.Net.Tokens.Status.{
  Status, Statuses, claimed, confirmed, unused, recycled, unnamed, username_of, is_confirmed,
}
use private_poker.Net.Tokens.Soundness.{IsSound}
use private_poker.Net.Tokens.Claims.{named}

pick_token-of :
    (a b : Option Token) (token : Token)
    → pick_token a b ≡ ok token
    → (a ≡ some token) ⊎ (b ≡ some token)
pick_token-of (some t) none token e = inl cc
pick_token-of none (some t) token e = inr cc
pick_token-of none none token e = cc
pick_token-of (some t) (some t') token e = cc

confirmed_username-of :
    (s : Status) (username : Username)
    → (confirmed_username (is_confirmed s) (username_of s) ≡ ok username) ↔ (s ≡ confirmed username)
confirmed_username-of unused u = (λ h. cc, λ h. cc)
confirmed_username-of recycled u = (λ h. cc, λ h. cc)
confirmed_username-of unnamed u = (λ h. cc, λ h. cc)
confirmed_username-of (claimed v) u = (λ h. cc, λ h. cc)
confirmed_username-of (confirmed v) u = (λ h. cc, λ h. cc)

module _ {S : Type 0} (f : Statuses) (tm : TokenManager S) (sound : IsSound f tm) where
  -- `get_token_with_username` finds a token for a username just if it is the token that has the
  -- username, claimed or confirmed. The condition: the token manager implements statuses of the
  -- tokens that keep usernames apart.
  pub get_token_with_username-owner :
      (username : Username) (token : Token)
      → (get_token_with_username username tm ≡ ok token) ↔ (username_of (f token) ≡ some username)
  unfolding get_token_with_username
  get_token_with_username-owner username token = (
    λ found. elim (pick_token-of _ _ token found) [
      | inl waits ↦ ap username_of ((sound.says.claims username token).0 waits)
      | inr plays ↦ ap username_of ((sound.says.confirms username token).0 plays)
    ],
    λ mine. elim (named (f token) username mine) [
      | inl waits ↦ elim (Option-cases (NameMap.lookup username tm.confirmed_usernames_to_tokens)) [
        | inl absent ↦ rw ((sound.says.claims username token).1 waits, absent) refl
        | inr (t, there) ↦
            let other = (sound.says.confirms username t).0 there in
            let same = sound.fair.unique t token username (ap username_of other) mine in
            cc (other, waits, ap f same)
      ]
      | inr plays ↦
          elim (Option-cases (NameMap.lookup username tm.unconfirmed_usernames_to_tokens)) [
            | inl absent ↦ rw ((sound.says.confirms username token).1 plays, absent) refl
            | inr (t, there) ↦
                let other = (sound.says.claims username t).0 there in
                let same = sound.fair.unique t token username (ap username_of other) mine in
                cc (other, plays, ap f same)
          ]
    ],
  )

  pub get_confirmed_username_with_token-status :
      (token : Token) (username : Username)
      → (get_confirmed_username_with_token token tm ≡ ok username) ↔ (f token ≡ confirmed username)
  unfolding get_confirmed_username_with_token
  get_confirmed_username_with_token-status token username =
      rw (sound.says.confirmeds token, sound.says.usernames token)
        (confirmed_username-of (f token) username)
