-- ===== src/Net/Tokens/Expiry.antt =====
-- How the `TokenManager` of private_poker/src/net/server.rs takes tokens back from clients that have
-- not declared a username in time.
use private_poker.Prelude.{
  ◌≡◌, refl, ◌∙◌, sym, ap, true, false, List, [], ◌∷◌, some, arith, subst, done,
}
use private_poker.Entities.{Username}
use private_poker.Net.TokenMap.{
  Token, TokenMap, lookup, contains_key, remove, contains, insert_token, lookup-remove,
  contains-insert_token, insert_token-IsAscending, remove-IsOrdered, some_of_is_some, is_some, keys,
  Above, IsAscending, contains-Above, contains_key-keys, IsOrdered,
}
use private_poker.Net.Tokens.{
  TokenManager, UnconfirmedClient, Instant, Duration, age_all, stale, recycle_all,
  recycle_expired_tokens,
}
use private_poker.Net.Tokens.Status.{
  Status, Statuses, unused, recycled, unnamed, claimed, confirmed, set_status, username_of,
  is_unconfirmed, Represents, expire,
}

-- An unconfirmed token without a username.
unnamed_of : (s : Status) → is_unconfirmed s ≡ true → is_some (username_of s) ≡ false → s ≡ unnamed
unnamed_of unnamed a b = refl
unnamed_of (claimed u) a b = cc
unnamed_of unused a b = cc
unnamed_of recycled a b = cc
unnamed_of (confirmed u) a b = cc

module _ {S : Type 0} where
  keys-age_all :
      (now : Token → Instant) (names : TokenMap Username) (m : TokenMap (UnconfirmedClient S))
      → keys (age_all now names m) ≡ keys m
  unfolding age_all
  keys-age_all now names [] = refl
  keys-age_all now names (e ∷ m) = ground (arith, keys-age_all now names m)

  stale-Above :
      (j : Token) (names : TokenMap Username) (limit : Duration)
      (m : TokenMap (UnconfirmedClient S))
      → Above j (keys m)
      → Above j (stale names limit m)
  unfolding stale
  stale-Above j names limit [] a = tt
  stale-Above j names limit (e ∷ m) a = ground (arith, stale-Above j names limit m a.1)

  stale-IsAscending :
      (names : TokenMap Username) (limit : Duration) (m : TokenMap (UnconfirmedClient S))
      → IsOrdered m
      → IsAscending (stale names limit m)
  unfolding stale
  stale-IsAscending names limit [] a = tt
  stale-IsAscending names limit (e ∷ m) a =
      ground (arith, stale-IsAscending names limit m a.1, stale-Above e.0 names limit m a.0)

  -- A token that has gone stale is that of a client without a username.
  contains-stale :
      (t : Token) (names : TokenMap Username) (limit : Duration)
      (m : TokenMap (UnconfirmedClient S))
      → contains t (stale names limit m) ≡ true
      → (contains t (keys m) ≡ true) × (contains_key t names ≡ false)
  unfolding stale contains
  contains-stale t names limit [] h = cc
  contains-stale t names limit (e ∷ m) h = ground (arith, contains-stale t names limit m)

  step-Represents :
      (f : Statuses) (tm : TokenManager S) (token : Token)
      → Represents f tm
      → f token ≡ unnamed
      → Represents (set_status token recycled f) (record tm {
        unconfirmed_tokens = remove token tm.unconfirmed_tokens;
        recycled_tokens = insert_token token tm.recycled_tokens;
      })
  step-Represents f tm token r mine = record {
    claimed_map = r.claimed_map;
    confirmed_map = r.confirmed_map;
    ascending = insert_token-IsAscending token tm.recycled_tokens r.ascending;
    ordered = remove-IsOrdered token tm.unconfirmed_tokens r.ordered;
    usernames = λ t. ground (arith, r.usernames t);
    unconfirmeds =
        λ t. ground (arith, r.unconfirmeds t, lookup-remove token t tm.unconfirmed_tokens);
    confirmeds = λ t. ground (arith, r.confirmeds t);
    recycleds =
        λ t. ground (arith, r.recycleds t, contains-insert_token token t tm.recycled_tokens);
    claims = λ u t. (ground (arith, r.claims u t), ground (arith, r.claims u t));
    confirms = λ u t. (ground (arith, r.confirms u t), ground (arith, r.confirms u t));
  }

  recycle_all-cons :
      (token : Token) (tokens : List Token) (tm : TokenManager S) (client : UnconfirmedClient S)
      (o : TokenManager S × List (Token × S))
      → lookup token tm.unconfirmed_tokens ≡ some client
      → recycle_all tokens (record tm {
        unconfirmed_tokens = remove token tm.unconfirmed_tokens;
        recycled_tokens = insert_token token tm.recycled_tokens;
      })
        ≡ done o
      → recycle_all (token ∷ tokens) tm ≡ done (o.0, (token, client.stream) ∷ o.1)
  unfolding recycle_all
  recycle_all-cons token tokens tm client o there runs = ground (arith, there, runs)

  -- The second loop never meets a token that is not unconfirmed.
  recycle_all-Represents :
      (f : Statuses) (tokens : List Token) (tm : TokenManager S)
      → Represents f tm
      → IsAscending tokens
      → ((t : Token) → contains t tokens ≡ true → f t ≡ unnamed)
      → (o : TokenManager S × List (Token × S)) × (recycle_all tokens tm ≡ done o)
        × (keys o.1 ≡ tokens)
        × Represents (expire tokens f) o.0
  unfolding recycle_all contains
  recycle_all-Represents f [] tm r a mine = ((tm, []), refl, refl, r)
  recycle_all-Represents f (token ∷ tokens) tm r a mine =
      let here : f token ≡ unnamed = mine token (ground arith) in
      let (client, there) =
        some_of_is_some (lookup token tm.unconfirmed_tokens)
          (r.unconfirmeds token ∙ ap is_unconfirmed here) in
      let g = set_status token recycled f in
      let tm' : TokenManager S = record tm {
        unconfirmed_tokens = remove token tm.unconfirmed_tokens;
        recycled_tokens = insert_token token tm.recycled_tokens;
      } in
      let later : (t : Token) → contains t tokens ≡ true → g t ≡ unnamed =
        λ t h. ground (arith, mine t, contains-Above token tokens a.0) in
      let (o, runs, given, says) =
        recycle_all-Represents g tokens tm' (step-Represents f tm token r here) a.1 later in
      let same : (t : Token) → expire tokens g t ≡ expire (token ∷ tokens) f t =
        λ t. ground arith in
      (
        (o.0, (token, client.stream) ∷ o.1),
        recycle_all-cons token tokens tm client o there runs,
        ap (token ∷◌) given,
        subst (λ h. Represents h o.0) (λ i t. same t i) says,
      )

  -- The clients that have waited grow older; what the manager says of the tokens stays.
  age-Represents :
      (f : Statuses) (tm : TokenManager S) (now : Token → Instant)
      → Represents f tm
      → Represents f (record tm {
        unconfirmed_tokens = age_all now tm.tokens_to_usernames tm.unconfirmed_tokens;
      })
  age-Represents f tm now r =
      let kept = keys-age_all now tm.tokens_to_usernames tm.unconfirmed_tokens in
      record {
        claimed_map = r.claimed_map;
        confirmed_map = r.confirmed_map;
        ascending = r.ascending;
        ordered = rw kept r.ordered;
        usernames = r.usernames;
        unconfirmeds = λ t.
            contains_key-keys t (age_all now tm.tokens_to_usernames tm.unconfirmed_tokens)
            ∙ ap (contains t) kept
            ∙ sym (contains_key-keys t tm.unconfirmed_tokens)
            ∙ r.unconfirmeds t;
        confirmeds = r.confirmeds;
        recycleds = r.recycleds;
        claims = r.claims;
        confirms = r.confirms;
      }

  -- `recycle_expired_tokens` returns, each token that it returns had a client without a username,
  -- and afterwards the manager implements the statuses in which just these tokens are recycled.
  -- The condition: the token manager implemented statuses of the tokens before.
  pub recycle_expired_tokens-Represents :
      (f : Statuses) (tm : TokenManager S) (now : Token → Instant)
      → Represents f tm
      → (o : TokenManager S × List (Token × S)) × (recycle_expired_tokens now tm ≡ done o)
        × ((t : Token) → contains t (keys o.1) ≡ true → f t ≡ unnamed)
        × Represents (expire (keys o.1) f) o.0
  unfolding recycle_expired_tokens
  recycle_expired_tokens-Represents f tm now r =
      let aged = age_all now tm.tokens_to_usernames tm.unconfirmed_tokens in
      let tokens = stale tm.tokens_to_usernames tm.token_association_timeout aged in
      let r' = age-Represents f tm now r in
      let mine : (t : Token) → contains t tokens ≡ true → f t ≡ unnamed = λ t h.
        let (known, nameless) =
          contains-stale t tm.tokens_to_usernames tm.token_association_timeout aged h in
        unnamed_of (f t) (sym (r'.unconfirmeds t) ∙ contains_key-keys t aged ∙ known)
          (sym (ap is_some (r.usernames t)) ∙ nameless) in
      let (o, runs, given, says) =
        recycle_all-Represents f tokens _ r'
          (stale-IsAscending tm.tokens_to_usernames tm.token_association_timeout aged r'.ordered)
          mine in
      (
        o,
        runs,
        λ t h. mine t (ap (contains t) (sym given) ∙ h),
        subst (λ ts. Represents (expire ts f) o.0) (sym given) says,
      )
