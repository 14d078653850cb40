-- ===== src/Net/Tokens/Soundness.antt =====
-- Every operation of the `TokenManager` in private_poker/src/net/server.rs refines a change of the
-- tokens' statuses, whatever token it is called with.
use private_poker.Prelude.{◌≡◌, refl, ap, true, false, List, Option, none, some, arith, done}
use private_poker.Net.Messages.{ClientResult, ok, err, does_not_exist}
use private_poker.Net.TokenMap.{Token, lookup, contains, is_some, keys}
use private_poker.Net.Tokens.{
  TokenManager, UnconfirmedClient, pick_stream, Instant, Duration, new, new_token,
  associate_token_and_stream, recycle_token, recycle_expired_tokens, get_mut_stream_with_token,
}
use private_poker.Net.Tokens.Status.{
  Status, Statuses, unused, recycled, unnamed, claimed, confirmed, set_status, is_idle,
  is_unconfirmed, is_confirmed, expire, Represents, IsFair,
}
use private_poker.Net.Tokens.Operations.{associate_token_and_stream-Represents}
use private_poker.Net.Tokens.Recycling.{
  Recycles, recycle_idle, recycle_unnamed, recycle_claimed, recycle_confirmed,
}
use private_poker.Net.Tokens.Fresh.{new_token-IsFresh}
use private_poker.Net.Tokens.Expiry.{recycle_expired_tokens-Represents}
use private_poker.Net.Tokens.Fairness.{nameless-IsFair, expire-IsFair, live_unreserved}

-- The manager represents statuses that keep usernames apart; a client stays one in them.
pub record IsSound {S : Type 0} (f : Statuses) (tm : TokenManager S) : Type 0 where
  pub fair : IsFair f
  pub says : Represents f tm

-- The clients stay.
abbrev pub StaysLive : Statuses → Statuses → Type 0
StaysLive f g = (t : Token) → is_idle (f t) ≡ false → is_idle (g t) ≡ false

abbrev pub unused_all : Statuses
unused_all t = unused

pub new-IsSound : {S : Type 0} (timeout : Duration) → IsSound {S = S} unused_all (new timeout)
unfolding new lookup contains
new-IsSound timeout = record {
  fair = record { unique = λ t t' u h h'. cc; reserved = λ t low. refl };
  says = record {
    claimed_map = tt;
    confirmed_map = tt;
    ascending = tt;
    ordered = tt;
    usernames = λ t. refl;
    unconfirmeds = λ t. refl;
    confirmeds = λ t. refl;
    recycleds = λ t. refl;
    claims = λ u t. (λ h. cc, λ h. cc);
    confirms = λ u t. (λ h. cc, λ h. cc);
  };
}

-- What finding a client's stream says of the token's status.
abbrev pub StreamSays : {S : Type 0} → ClientResult S → Status → Type 0
StreamSays (ok _) s = is_idle s ≡ false
StreamSays (err e) s = (e ≡ does_not_exist) × (is_idle s ≡ true)

pick_stream-done :
    {S : Type 0} (a : Option (UnconfirmedClient S)) (b : Option S) (s : Status)
    → is_some a ≡ is_unconfirmed s
    → is_some b ≡ is_confirmed s
    → (o : ClientResult S) × (pick_stream a b ≡ done o) × StreamSays o s
pick_stream-done (some client) none s h k = (ok client.stream, refl, ground arith)
pick_stream-done none (some stream) s h k = (ok stream, refl, ground arith)
pick_stream-done none none s h k = (err does_not_exist, refl, (refl, ground arith))
pick_stream-done (some client) (some stream) s h k = ground arith

module _ {S : Type 0} (f : Statuses) (tm : TokenManager S) (sound : IsSound f tm) where
  abbrev pub RecyclesSoundly : Token → Type 0
  RecyclesSoundly token =
      (o : TokenManager S × ClientResult S) × (recycle_token token tm ≡ done o)
      × (g : Statuses) × IsSound g o.0

  -- A connection is accepted.
  pub accept-IsSound :
      (now : Instant) (stream : S)
      → (g : Statuses) × IsSound g
          (associate_token_and_stream now (new_token tm).1 stream (new_token tm).0)
        × StaysLive f g
  accept-IsSound now stream =
      let (idle, above, says) = new_token-IsFresh f tm sound.says sound.fair in
      let (tm', token) = new_token tm in
      let f' = set_status token unused f in
      let fair' = nameless-IsFair f sound.fair token unused above refl in
      (
        set_status token unnamed f',
        record {
          fair = nameless-IsFair f' fair' token unnamed above refl;
          says = associate_token_and_stream-Represents f' tm' says now token stream (ground arith);
        },
        λ t live. ground (arith, idle),
      )

  -- A token has one of the two streams or none.
  pub get_mut_stream_with_token-done :
      (token : Token)
      → (o : ClientResult S) × (get_mut_stream_with_token token tm ≡ done o)
        × StreamSays o (f token)
  unfolding get_mut_stream_with_token
  get_mut_stream_with_token-done token =
      pick_stream-done (lookup token tm.unconfirmed_tokens) (lookup token tm.confirmed_tokens)
        (f token) (sound.says.unconfirmeds token) (sound.says.confirmeds token)

  -- A token with a client is recycled.
  recycle_live :
      (token : Token) → is_idle (f token) ≡ false → Recycles f tm token → RecyclesSoundly token
  recycle_live token live (tm', stream, runs, says) = (
    (tm', ok stream),
    runs,
    set_status token recycled f,
    record {
      fair =
          nameless-IsFair f sound.fair token recycled (live_unreserved f sound.fair token live)
            refl;
      says = says;
    },
  )

  recycle_none : (token : Token) → is_idle (f token) ≡ true → RecyclesSoundly token
  recycle_none token idle =
      let (tm', runs, says) = recycle_idle f tm sound.says token idle in
      ((tm', err does_not_exist), runs, f, record { fair = sound.fair; says = says })

  recycle_by : (token : Token) (s : Status) → f token ≡ s → RecyclesSoundly token
  recycle_by token unused mine = recycle_none token (ap is_idle mine)
  recycle_by token recycled mine = recycle_none token (ap is_idle mine)
  recycle_by token unnamed mine =
      recycle_live token (ap is_idle mine) (recycle_unnamed f tm sound.says token mine)
  recycle_by token (claimed username) mine =
      recycle_live token (ap is_idle mine)
        (recycle_claimed f tm sound.says sound.fair token username mine)
  recycle_by token (confirmed username) mine =
      recycle_live token (ap is_idle mine)
        (recycle_confirmed f tm sound.says sound.fair token username mine)

  -- `recycle_token` returns for every token, with a client or without, and afterwards the token
  -- manager still implements statuses of the tokens that keep usernames apart. The condition: it
  -- did before.
  pub recycle-IsSound : (token : Token) → RecyclesSoundly token
  recycle-IsSound token = recycle_by token (f token) refl

  pub expire-IsSound :
      (now : Token → Instant)
      → (o : TokenManager S × List (Token × S)) × (recycle_expired_tokens now tm ≡ done o)
        × (g : Statuses) × IsSound g o.0
  expire-IsSound now =
      let (o, runs, mine, says) = recycle_expired_tokens-Represents f tm now sound.says in
      (
        o,
        runs,
        expire (keys o.1) f,
        record { fair = expire-IsFair f sound.fair (keys o.1) mine; says = says },
      )
