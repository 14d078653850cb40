-- ===== src/Net/Tokens/Fresh.antt =====
-- The token that `TokenManager::new_token` of private_poker/src/net/server.rs gives out.
use private_poker.Prelude.{
  ◌≡◌, ◌<◌, ◌≤◌, ◌+◌, refl, ◌∙◌, sym, ap, true, false, [], ◌∷◌, Option, none, some, arith, subst,
}
use private_poker.Net.TokenMap.{
  Token, TokenMap, TokenSet, lookup, contains, last_key, lookup_above, lookup_empty,
  last_key-lookup, contains-Above, is_some, IsAscending,
}
use private_poker.Net.Tokens.{TokenManager, new_token, newest, waker_token, pop_token}
use private_poker.Net.Tokens.Status.{
  Status, Statuses, unused, recycled, unnamed, claimed, confirmed, set_status, is_unconfirmed,
  is_confirmed, is_recycled, is_idle, Represents, IsFair,
}

-- A status that no map shows.
idle_unused :
    (s : Status)
    → is_unconfirmed s ≡ false
    → is_confirmed s ≡ false
    → is_recycled s ≡ false
    → s ≡ unused
idle_unused unused a b c = refl
idle_unused recycled a b c = cc
idle_unused unnamed a b c = cc
idle_unused (claimed u) a b c = cc
idle_unused (confirmed u) a b c = cc

recycled_of : (s : Status) → is_recycled s ≡ true → s ≡ recycled
recycled_of recycled e = refl
recycled_of unused e = cc
recycled_of unnamed e = cc
recycled_of (claimed u) e = cc
recycled_of (confirmed u) e = cc

-- A token above the newest one has no client.
newest_above :
    {V W : Type 0} (m : TokenMap V) (n : TokenMap W) (j : Token) (a b : Option Token)
    → last_key m ≡ a
    → last_key n ≡ b
    → newest a b < j
    → (lookup j m ≡ none) × (lookup j n ≡ none)
newest_above m n j none none p q h = (lookup_empty j m p, lookup_empty j n q)
newest_above m n j none (some k) p q h = (lookup_empty j m p, lookup_above k j n q h)
newest_above m n j (some k) none p q h = (lookup_above k j m p h, lookup_empty j n q)
newest_above m n j (some k) (some k') p q h =
    (lookup_above k j m p (omega (arith, h)), lookup_above k' j n q (omega (arith, h)))

module _ {S : Type 0} (f : Statuses) (tm : TokenManager S) (r : Represents f tm)
    (fair : IsFair f) where
  -- A token in use is not one of the server's own.
  live_above : (t : Token) → is_unconfirmed (f t) ≡ true → waker_token < t
  live_above t live = ground (arith, fair.reserved t)

  live_above' : (t : Token) → is_confirmed (f t) ≡ true → waker_token < t
  live_above' t live = ground (arith, fair.reserved t)

  newest_reserved :
      (a b : Option Token)
      → last_key tm.unconfirmed_tokens ≡ a
      → last_key tm.confirmed_tokens ≡ b
      → waker_token ≤ newest a b
  newest_reserved none none p q = omega arith
  newest_reserved none (some k) p q =
      omega (arith, live_above' k (sym (r.confirmeds k) ∙ last_key-lookup k _ q))
  newest_reserved (some k) none p q =
      omega (arith, live_above k (sym (r.unconfirmeds k) ∙ last_key-lookup k _ p))
  newest_reserved (some k) (some k') p q =
      omega (arith, live_above k (sym (r.unconfirmeds k) ∙ last_key-lookup k _ p))

  -- What giving out a token comes to: no client has it, and it is not one of the server's own.
  abbrev pub IsFresh : TokenManager S × Token → Type 0
  IsFresh o =
      (is_idle (f o.1) ≡ true) × (waker_token < o.1) × Represents (set_status o.1 unused f) o.0

  popped : (tokens : TokenSet) → tm.recycled_tokens ≡ tokens → IsFresh (pop_token tokens tm)
  unfolding contains
  popped [] e =
      let top = newest (last_key tm.unconfirmed_tokens) (last_key tm.confirmed_tokens) in
      let token = top + 1 in
      let clear =
        newest_above tm.unconfirmed_tokens tm.confirmed_tokens token _ _ refl refl (omega arith) in
      let idle : f token ≡ unused =
        idle_unused (f token) (sym (r.unconfirmeds token) ∙ ap is_some clear.0)
          (sym (r.confirmeds token) ∙ ap is_some clear.1)
          (sym (r.recycleds token) ∙ ap (contains token) e) in
      let same : (t : Token) → set_status token unused f t ≡ f t = λ t. ground arith in
      let least =
        newest_reserved (last_key tm.unconfirmed_tokens) (last_key tm.confirmed_tokens) refl refl in
      (
        ap is_idle idle,
        omega (arith, least),
        subst (λ g. Represents g tm) (λ i t. sym (same t) i) r,
      )
  popped (k ∷ ks) e =
      let chain : IsAscending (k ∷ ks) = rw e at r.ascending in
      let member : contains k tm.recycled_tokens ≡ true = ap (contains k) e ∙ ground arith in
      let mine : f k ≡ recycled = recycled_of (f k) (sym (r.recycleds k) ∙ member) in
      let all : (t : Token) → contains t (k ∷ ks) ≡ is_recycled (f t) =
        λ t. sym (ap (contains t) e) ∙ r.recycleds t in
      (
        ap is_idle mine,
        ground (arith, fair.reserved k),
        record {
          claimed_map = r.claimed_map;
          confirmed_map = r.confirmed_map;
          ascending = chain.1;
          ordered = r.ordered;
          usernames = λ t. ground (arith, r.usernames t, mine);
          unconfirmeds = λ t. ground (arith, r.unconfirmeds t, mine);
          confirmeds = λ t. ground (arith, r.confirmeds t, mine);
          recycleds = λ t. ground (arith, all t, contains-Above k ks chain.0);
          claims = λ u t. (ground (arith, r.claims u t), ground (arith, r.claims u t));
          confirms = λ u t. (ground (arith, r.confirms u t), ground (arith, r.confirms u t));
        },
      )

  -- The token that `new_token` gives out has no client and is not one of the server's own, and the
  -- manager then counts it neither as in use nor as recycled. The condition: the token manager
  -- implements statuses of the tokens that keep usernames apart.
  pub new_token-IsFresh : IsFresh (new_token tm)
  unfolding new_token
  new_token-IsFresh = popped tm.recycled_tokens refl
