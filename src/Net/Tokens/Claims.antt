-- ===== src/Net/Tokens/Claims.antt =====
-- A username is claimed and confirmed, in private_poker/src/net/server.rs, for whatever token.
use private_poker.Prelude.{
  ◌≡◌, ◌≢◌, refl, ◌∙◌, sym, ap, true, false, Bool-cases, none, some, Option-cases, ◌⊎◌, arith, done,
  inl, inr,
}
use private_poker.Entities.{Username}
use private_poker.Entities.NameMap
use private_poker.Entities.NameMap.Laws.{lookup-contains_key}
use mathlib.Core.Option.{some-injective}
use private_poker.Net.Messages.{ClientResult, ok, err, already_associated, unassociated}
use private_poker.Net.TokenMap.{Token, lookup, none_of_is_some}
use private_poker.Net.Tokens.{
  TokenManager, associate_token_and_username, is_taken, confirm_username,
}
use private_poker.Net.Tokens.Status.{
  Status, Statuses, unused, recycled, unnamed, claimed, confirmed, set_status, username_of, is_idle,
}
use private_poker.Net.Tokens.Operations.{
  associate_token_and_username-Represents, confirm_username-Represents,
}
use private_poker.Net.Tokens.Fairness.{claim-IsFair, confirm-IsFair, live_unreserved}
use private_poker.Net.Tokens.Soundness.{IsSound, StaysLive}

pub named :
    (s : Status) (username : Username)
    → username_of s ≡ some username
    → (s ≡ claimed username) ⊎ (s ≡ confirmed username)
named (claimed u) username h = inl (ap claimed (some-injective _ _ h))
named (confirmed u) username h = inr (ap confirmed (some-injective _ _ h))
named unused username h = cc
named recycled username h = cc
named unnamed username h = cc

unnamed_live : (s : Status) → is_idle s ≡ false → username_of s ≡ none → s ≡ unnamed
unnamed_live unnamed a b = refl
unnamed_live unused a b = cc
unnamed_live recycled a b = cc
unnamed_live (claimed u) a b = cc
unnamed_live (confirmed u) a b = cc

module _ {S : Type 0} (f : Statuses) (tm : TokenManager S) (sound : IsSound f tm) where
  -- What confirming a token's username comes to.
  abbrev pub Confirms : Token → Type 0
  Confirms token =
      (o : TokenManager S × ClientResult (Unit {0})) × (confirm_username token tm ≡ done o)
      × (g : Statuses) × IsSound g o.0
      × StaysLive f g

  -- A username that is not taken belongs to no token.
  free_username :
      (token : Token) (username : Username)
      → is_taken token username tm ≡ false
      → (t : Token) → username_of (f t) ≢ some username
  free_username token username free t h =
      let idle : NameMap.lookup username tm.unconfirmed_usernames_to_tokens ≡ none =
        lookup-contains_key username tm.unconfirmed_usernames_to_tokens (ground arith) in
      let gone : NameMap.lookup username tm.confirmed_usernames_to_tokens ≡ none =
        lookup-contains_key username tm.confirmed_usernames_to_tokens (ground arith) in
      elim (named (f t) username h) [
        | inl mine ↦ cc ((sound.says.claims username t).1 mine, idle)
        | inr mine ↦ cc ((sound.says.confirms username t).1 mine, gone)
      ]

  pub associate_taken :
      (token : Token) (username : Username)
      → is_taken token username tm ≡ true
      → associate_token_and_username token username tm ≡ (tm, err already_associated)
  unfolding associate_token_and_username
  associate_taken token username taken = rw taken refl

  -- A client declares a username: it has it then, or an error is returned.
  pub associate-owner :
      (token : Token) (username : Username)
      → is_idle (f token) ≡ false
      → (g : Statuses) × IsSound g (associate_token_and_username token username tm).0
        × ((associate_token_and_username token username tm).1 ≡ ok tt
            → username_of (g token) ≡ some username)
        × StaysLive f g
  associate-owner token username live = elim (Bool-cases (is_taken token username tm)) [
    | inl taken ↦ rw (associate_taken token username taken) (f, sound, λ h. cc, λ t h. h)
    | inr free ↦
        let nameless : lookup token tm.tokens_to_usernames ≡ none =
          none_of_is_some (lookup token tm.tokens_to_usernames) (ground arith) in
        let mine = unnamed_live (f token) live (sym (sound.says.usernames token) ∙ nameless) in
        let (tm', runs, says) =
          associate_token_and_username-Represents f tm sound.says token username mine free in
        let sound' : IsSound (set_status token (claimed username) f) tm' = record {
          fair =
              claim-IsFair f sound.fair token username (live_unreserved f sound.fair token live)
                (free_username token username free);
          says = says;
        } in
        rw runs (
          set_status token (claimed username) f,
          sound',
          λ h. ground arith,
          λ t h. ground (arith, h),
        )
  ]

  pub associate-IsSound :
      (token : Token) (username : Username)
      → is_idle (f token) ≡ false
      → (g : Statuses) × IsSound g (associate_token_and_username token username tm).0
        × StaysLive f g
  associate-IsSound token username live =
      let (g, sound', _, stays) = associate-owner token username live in (g, sound', stays)

  -- Without a username that waits to be confirmed, nothing is confirmed.
  confirm_nameless :
      (token : Token)
      → lookup token tm.tokens_to_usernames ≡ none
      → confirm_username token tm ≡ done (tm, err unassociated)
  unfolding confirm_username
  confirm_nameless token nameless = rw nameless refl

  confirm_twice :
      (token : Token) (username : Username)
      → lookup token tm.tokens_to_usernames ≡ some username
      → NameMap.lookup username tm.unconfirmed_usernames_to_tokens ≡ none
      → confirm_username token tm ≡ done (tm, err unassociated)
  unfolding confirm_username
  confirm_twice token username mine gone = rw (mine, gone) refl

  confirm_unchanged :
      (token : Token) → confirm_username token tm ≡ done (tm, err unassociated) → Confirms token
  confirm_unchanged token runs = ((tm, err unassociated), runs, f, sound, λ t h. h)

  confirm_by : (token : Token) (s : Status) → f token ≡ s → Confirms token
  confirm_by token unused mine =
      confirm_unchanged token
        (confirm_nameless token (sound.says.usernames token ∙ ap username_of mine))
  confirm_by token recycled mine =
      confirm_unchanged token
        (confirm_nameless token (sound.says.usernames token ∙ ap username_of mine))
  confirm_by token unnamed mine =
      confirm_unchanged token
        (confirm_nameless token (sound.says.usernames token ∙ ap username_of mine))
  confirm_by token (claimed username) mine =
      let (tm', runs, says) =
        confirm_username-Represents f tm sound.says token username sound.fair mine in
      (
        (tm', ok tt),
        runs,
        set_status token (confirmed username) f,
        record { fair = confirm-IsFair f sound.fair token username mine; says = says },
        λ t h. ground (arith, h),
      )
  confirm_by token (confirmed username) mine =
      let named' = sound.says.usernames token ∙ ap username_of mine in
      confirm_unchanged token
        (elim (Option-cases (NameMap.lookup username tm.unconfirmed_usernames_to_tokens)) [
          | inl gone ↦ confirm_twice token username named' gone
          | inr (t, found) ↦
              let other : f t ≡ claimed username = (sound.says.claims username t).0 found in
              let same : t ≡ token =
                sound.fair.unique t token username (ap username_of other) (ap username_of mine) in
              cc (other, mine, ap f same)
        ])

  -- `confirm_username` returns for every token, and afterwards the token manager implements
  -- statuses of the tokens that keep usernames apart, in which each token with a client still has
  -- one. The condition: it did implement such statuses before.
  pub confirm-IsSound : (token : Token) → Confirms token
  confirm-IsSound token = confirm_by token (f token) refl
