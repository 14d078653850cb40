-- ===== src/Net/Tokens/Recycling.antt =====
-- How the `TokenManager` of private_poker/src/net/server.rs takes a token back from its client.
use private_poker.Prelude.{◌≡◌, refl, ◌∙◌, ap, true, false, none, some, arith, eq_iff, done}
use private_poker.Entities.{Username}
use private_poker.Entities.NameMap
use private_poker.Entities.NameMap.Laws.{remove-IsMap, lookup-remove_name}
use private_poker.Net.Messages.{ok, err, does_not_exist}
use private_poker.Net.TokenMap.{
  Token, lookup, remove, insert_token, lookup-remove, contains-insert_token, remove-IsOrdered,
  insert_token-IsAscending, some_of_is_some, none_of_is_some,
}
use private_poker.Net.Tokens.{TokenManager, recycle_token, get_mut_stream_with_token, pick_stream}
use private_poker.Net.Tokens.Status.{
  Status, Statuses, unused, recycled, unnamed, claimed, confirmed, set_status, username_of,
  is_unconfirmed, is_confirmed, is_idle, Represents, IsFair,
}

idle_empty :
    (s : Status)
    → is_idle s ≡ true
    → (username_of s ≡ none) × (is_unconfirmed s ≡ false) × (is_confirmed s ≡ false)
idle_empty unused e = (refl, refl, refl)
idle_empty recycled e = (refl, refl, refl)
idle_empty unnamed e = cc
idle_empty (claimed u) e = cc
idle_empty (confirmed u) e = cc

-- What taking a token back comes to: its stream is returned, and the token is recycled.
abbrev pub Recycles : {S : Type 0} → Statuses → TokenManager S → Token → Type 0
Recycles {S} f tm token =
    (tm' : TokenManager S) × (stream : S) × (recycle_token token tm ≡ done (tm', ok stream))
    × Represents (set_status token recycled f) tm'

module _ {S : Type 0} (f : Statuses) (tm : TokenManager S) (r : Represents f tm)
    (token : Token) where
  pub recycle_unnamed : f token ≡ unnamed → Recycles f tm token
  unfolding recycle_token get_mut_stream_with_token
  recycle_unnamed mine =
      let no_name : lookup token tm.tokens_to_usernames ≡ none =
        r.usernames token ∙ ap username_of mine in
      let (client, there) =
        some_of_is_some (lookup token tm.unconfirmed_tokens)
          (r.unconfirmeds token ∙ ap is_unconfirmed mine) in
      let absent : lookup token tm.confirmed_tokens ≡ none =
        none_of_is_some (lookup token tm.confirmed_tokens)
          (r.confirmeds token ∙ ap is_confirmed mine) in
      let tm' : TokenManager S = record tm {
        unconfirmed_tokens = remove token tm.unconfirmed_tokens;
        confirmed_tokens = remove token tm.confirmed_tokens;
        recycled_tokens = insert_token token tm.recycled_tokens;
      } in
      (
        tm',
        client.stream,
        rw (no_name, there, absent) refl,
        record {
          claimed_map = r.claimed_map;
          confirmed_map = r.confirmed_map;
          ascending = insert_token-IsAscending token tm.recycled_tokens r.ascending;
          ordered = remove-IsOrdered token tm.unconfirmed_tokens r.ordered;
          usernames = λ t. ground (arith, r.usernames t);
          unconfirmeds =
              λ t. ground (arith, r.unconfirmeds t, lookup-remove token t tm.unconfirmed_tokens);
          confirmeds =
              λ t. ground (arith, r.confirmeds t, lookup-remove token t tm.confirmed_tokens);
          recycleds =
              λ t. ground (arith, r.recycleds t, contains-insert_token token t tm.recycled_tokens);
          claims = λ u t. (ground (arith, r.claims u t), ground (arith, r.claims u t));
          confirms = λ u t. (ground (arith, r.confirms u t), ground (arith, r.confirms u t));
        },
      )

-- The manager after the token has lost its username and its client.
abbrev without : {S : Type 0} → Token → Username → TokenManager S → TokenManager S
without token username tm = record tm {
  tokens_to_usernames = remove token tm.tokens_to_usernames;
  unconfirmed_usernames_to_tokens = NameMap.remove username tm.unconfirmed_usernames_to_tokens;
  confirmed_usernames_to_tokens = NameMap.remove username tm.confirmed_usernames_to_tokens;
  unconfirmed_tokens = remove token tm.unconfirmed_tokens;
  confirmed_tokens = remove token tm.confirmed_tokens;
  recycled_tokens = insert_token token tm.recycled_tokens;
}

module _ {S : Type 0} (f : Statuses) (tm : TokenManager S) (r : Represents f tm) (fair : IsFair f)
    (token : Token) (username : Username) where
  without-Represents :
      username_of (f token) ≡ some username
      → Represents (set_status token recycled f) (without token username tm)
  without-Represents mine =
      let alone : (t : Token) → username_of (f t) ≡ some username → t ≡ token =
        λ t h. fair.unique t token username h mine in
      let law = λ (u : Username).
        lookup-remove_name username u tm.unconfirmed_usernames_to_tokens r.claimed_map in
      let law' = λ (u : Username).
        lookup-remove_name username u tm.confirmed_usernames_to_tokens r.confirmed_map in
      record {
        claimed_map = remove-IsMap username tm.unconfirmed_usernames_to_tokens r.claimed_map;
        confirmed_map = remove-IsMap username tm.confirmed_usernames_to_tokens r.confirmed_map;
        ascending = insert_token-IsAscending token tm.recycled_tokens r.ascending;
        ordered = remove-IsOrdered token tm.unconfirmed_tokens r.ordered;
        usernames =
            λ t. ground (arith, r.usernames t, lookup-remove token t tm.tokens_to_usernames);
        unconfirmeds =
            λ t. ground (arith, r.unconfirmeds t, lookup-remove token t tm.unconfirmed_tokens);
        confirmeds = λ t. ground (arith, r.confirmeds t, lookup-remove token t tm.confirmed_tokens);
        recycleds =
            λ t. ground (arith, r.recycleds t, contains-insert_token token t tm.recycled_tokens);
        claims = λ u t. (
          ground (arith, r.claims u t, alone t, mine, eq_iff u username, law u),
          ground (arith, r.claims u t, alone t, mine, eq_iff u username, law u),
        );
        confirms = λ u t. (
          ground (arith, r.confirms u t, alone t, mine, eq_iff u username, law' u),
          ground (arith, r.confirms u t, alone t, mine, eq_iff u username, law' u),
        );
      }

  -- The code comes to that manager, if the client is found in one of the maps.
  recycle_by_stream :
      (stream : S)
      → lookup token tm.tokens_to_usernames ≡ some username
      → pick_stream (lookup token tm.unconfirmed_tokens) (lookup token tm.confirmed_tokens)
        ≡ done (ok stream)
      → recycle_token token tm ≡ done (without token username tm, ok stream)
  unfolding recycle_token get_mut_stream_with_token
  recycle_by_stream stream known found = rw (known, found) refl

  pub recycle_claimed : f token ≡ claimed username → Recycles f tm token
  recycle_claimed mine =
      let (client, there) =
        some_of_is_some (lookup token tm.unconfirmed_tokens)
          (r.unconfirmeds token ∙ ap is_unconfirmed mine) in
      let absent : lookup token tm.confirmed_tokens ≡ none =
        none_of_is_some (lookup token tm.confirmed_tokens)
          (r.confirmeds token ∙ ap is_confirmed mine) in
      (
        without token username tm,
        client.stream,
        recycle_by_stream client.stream (r.usernames token ∙ ap username_of mine) (
            ap (λ o. pick_stream o (lookup token tm.confirmed_tokens)) there
            ∙ ap (pick_stream (some client)) absent),
        without-Represents (ap username_of mine),
      )

  pub recycle_confirmed : f token ≡ confirmed username → Recycles f tm token
  recycle_confirmed mine =
      let (stream, there) =
        some_of_is_some (lookup token tm.confirmed_tokens)
          (r.confirmeds token ∙ ap is_confirmed mine) in
      let absent : lookup token tm.unconfirmed_tokens ≡ none =
        none_of_is_some (lookup token tm.unconfirmed_tokens)
          (r.unconfirmeds token ∙ ap is_unconfirmed mine) in
      (
        without token username tm,
        stream,
        recycle_by_stream stream (r.usernames token ∙ ap username_of mine) (
            ap (λ o. pick_stream o (lookup token tm.confirmed_tokens)) absent
            ∙ ap (pick_stream none) there),
        without-Represents (ap username_of mine),
      )

module _ {S : Type 0} (f : Statuses) (tm : TokenManager S) (r : Represents f tm)
    (token : Token) where
  -- A token that no client has is left as it is.
  pub recycle_idle :
      is_idle (f token) ≡ true
      → (tm' : TokenManager S) × (recycle_token token tm ≡ done (tm', err does_not_exist))
        × Represents f tm'
  unfolding recycle_token get_mut_stream_with_token
  recycle_idle idle =
      let (no_name, waits, playing) = idle_empty (f token) idle in
      let named : lookup token tm.tokens_to_usernames ≡ none = r.usernames token ∙ no_name in
      let absent : lookup token tm.unconfirmed_tokens ≡ none =
        none_of_is_some (lookup token tm.unconfirmed_tokens) (r.unconfirmeds token ∙ waits) in
      let absent' : lookup token tm.confirmed_tokens ≡ none =
        none_of_is_some (lookup token tm.confirmed_tokens) (r.confirmeds token ∙ playing) in
      (
        record tm {
          unconfirmed_tokens = remove token tm.unconfirmed_tokens;
          confirmed_tokens = remove token tm.confirmed_tokens;
        },
        rw (named, absent, absent') refl,
        record {
          claimed_map = r.claimed_map;
          confirmed_map = r.confirmed_map;
          ascending = r.ascending;
          ordered = remove-IsOrdered token tm.unconfirmed_tokens r.ordered;
          usernames = r.usernames;
          unconfirmeds = λ t.
              ground (arith, r.unconfirmeds t, waits, lookup-remove token t tm.unconfirmed_tokens);
          confirmeds = λ t.
              ground (arith, r.confirmeds t, playing, lookup-remove token t tm.confirmed_tokens);
          recycleds = r.recycleds;
          claims = r.claims;
          confirms = r.confirms;
        },
      )
