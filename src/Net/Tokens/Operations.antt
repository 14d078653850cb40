-- ===== src/Net/Tokens/Operations.antt =====
-- What each operation of the `TokenManager` in private_poker/src/net/server.rs does to the statuses.
use private_poker.Prelude.{
  ◌≡◌, ◌≢◌, refl, ◌∙◌, ap, true, false, Option-cases, inl, inr, none, some, arith, eq_iff, done,
}
use private_poker.Entities.{Username}
use private_poker.Entities.NameMap
use private_poker.Entities.NameMap.Laws.{
  lookup-contains_key, insert-IsMap, remove-IsMap, lookup-insert_name, lookup-remove_name,
}
use private_poker.Net.Messages.{ok}
use private_poker.Net.TokenMap.{
  Token, lookup, contains_key, insert, remove, lookup-insert, lookup-remove, insert-IsOrdered,
  remove-IsOrdered,
}
use private_poker.Net.Tokens.{
  TokenManager, Instant, is_taken, associate_token_and_stream, associate_token_and_username,
  new_client, confirm_username,
}
use private_poker.Net.Tokens.Status.{
  Statuses, unused, unnamed, claimed, confirmed, set_status, username_of, is_unconfirmed,
  Represents, IsFair,
}

module _ {S : Type 0} (f : Statuses) (tm : TokenManager S) (r : Represents f tm) where
  pub associate_token_and_stream-Represents :
      (now : Instant) (token : Token) (stream : S)
      → f token ≡ unused
      → Represents (set_status token unnamed f) (associate_token_and_stream now token stream tm)
  unfolding associate_token_and_stream
  associate_token_and_stream-Represents now token stream free = record {
    claimed_map = r.claimed_map;
    confirmed_map = r.confirmed_map;
    ascending = r.ascending;
    ordered = insert-IsOrdered token (new_client now stream) tm.unconfirmed_tokens r.ordered;
    usernames = λ t. ground (arith, r.usernames t);
    unconfirmeds = λ t. ground (
      arith,
      r.unconfirmeds t,
      lookup-insert token t (new_client now stream) tm.unconfirmed_tokens,
    );
    confirmeds = λ t. ground (arith, r.confirmeds t);
    recycleds = λ t. ground (arith, r.recycleds t);
    claims = λ u t. (ground (arith, r.claims u t), ground (arith, r.claims u t));
    confirms = λ u t. (ground (arith, r.confirms u t), ground (arith, r.confirms u t));
  }

  -- A username that nobody has, for a client without one.
  pub associate_token_and_username-Represents :
      (token : Token) (username : Username)
      → f token ≡ unnamed
      → is_taken token username tm ≡ false
      → (tm' : TokenManager S) × (associate_token_and_username token username tm ≡ (tm', ok tt))
        × Represents (set_status token (claimed username) f) tm'
  unfolding associate_token_and_username
  associate_token_and_username-Represents token username has_none free =
      let names = tm.unconfirmed_usernames_to_tokens in
      let absent : NameMap.contains_key username names ≡ false = ground arith in
      let unclaimed : NameMap.lookup username names ≡ none =
        lookup-contains_key username names absent in
      let nobody : (u : Username) (t : Token) → u ≡ username → f t ≢ claimed u =
        λ u t same mine. cc ((r.claims username t).1 (mine ∙ ap claimed same), unclaimed) in
      let tm' : TokenManager S = record tm {
        tokens_to_usernames = insert token username tm.tokens_to_usernames;
        unconfirmed_usernames_to_tokens =
            NameMap.insert username token tm.unconfirmed_usernames_to_tokens;
      } in
      (
        tm',
        ground (arith, r.recycleds token),
        record {
          claimed_map =
              insert-IsMap username token tm.unconfirmed_usernames_to_tokens r.claimed_map;
          confirmed_map = r.confirmed_map;
          ascending = r.ascending;
          ordered = r.ordered;
          usernames = λ t.
              ground (arith, r.usernames t, lookup-insert token t username tm.tokens_to_usernames);
          unconfirmeds = λ t. ground (arith, r.unconfirmeds t);
          confirmeds = λ t. ground (arith, r.confirmeds t);
          recycleds = λ t. ground (arith, r.recycleds t);
          claims = λ u t. (
            ground (
              arith,
              r.claims u t,
              nobody u t,
              eq_iff u username,
              lookup-insert_name username u token names,
            ),
            ground (
              arith,
              r.claims u t,
              nobody u t,
              eq_iff u username,
              lookup-insert_name username u token names,
            ),
          );
          confirms = λ u t. (ground (arith, r.confirms u t), ground (arith, r.confirms u t));
        },
      )

  -- A claimed username is confirmed.
  pub confirm_username-Represents :
      (token : Token) (username : Username)
      → IsFair f
      → f token ≡ claimed username
      → (tm' : TokenManager S) × (confirm_username token tm ≡ done (tm', ok tt))
        × Represents (set_status token (confirmed username) f) tm'
  unfolding confirm_username
  confirm_username-Represents token username fair mine =
      let named : lookup token tm.tokens_to_usernames ≡ some username =
        r.usernames token ∙ ap username_of mine in
      let found = (r.claims username token).1 mine in
      let waits : contains_key token tm.unconfirmed_tokens ≡ true =
        r.unconfirmeds token ∙ ap is_unconfirmed mine in
      elim (Option-cases (lookup token tm.unconfirmed_tokens)) [
        | inl missing ↦ cc (rw missing at waits)
        | inr (client, there) ↦
            let tm' : TokenManager S = record tm {
              unconfirmed_usernames_to_tokens =
                  NameMap.remove username tm.unconfirmed_usernames_to_tokens;
              unconfirmed_tokens = remove token tm.unconfirmed_tokens;
              confirmed_tokens = insert token client.stream tm.confirmed_tokens;
              confirmed_usernames_to_tokens =
                  NameMap.insert username token tm.confirmed_usernames_to_tokens;
            } in
            let only : (t : Token) → f t ≡ claimed username → t ≡ token =
              λ t h. cc ((r.claims username t).1 h, found) in
            let alone : (t : Token) → f t ≡ confirmed username → t ≡ token =
              λ t h. fair.unique t token username (ap username_of h) (ap username_of mine) in
            (
              tm',
              rw (named, found, there) refl,
              record {
                claimed_map =
                    remove-IsMap username tm.unconfirmed_usernames_to_tokens r.claimed_map;
                confirmed_map =
                    insert-IsMap username token tm.confirmed_usernames_to_tokens r.confirmed_map;
                ascending = r.ascending;
                ordered = remove-IsOrdered token tm.unconfirmed_tokens r.ordered;
                usernames = λ t. ground (arith, r.usernames t, r.usernames token);
                unconfirmeds = λ t.
                    ground (arith, r.unconfirmeds t, lookup-remove token t tm.unconfirmed_tokens);
                confirmeds = λ t. ground (
                  arith,
                  r.confirmeds t,
                  lookup-insert token t client.stream tm.confirmed_tokens,
                );
                recycleds = λ t. ground (arith, r.recycleds t, r.recycleds token);
                claims = λ u t. (
                  ground (
                    arith,
                    r.claims u t,
                    only t,
                    eq_iff u username,
                    lookup-remove_name username u tm.unconfirmed_usernames_to_tokens r.claimed_map,
                  ),
                  ground (
                    arith,
                    r.claims u t,
                    only t,
                    eq_iff u username,
                    lookup-remove_name username u tm.unconfirmed_usernames_to_tokens r.claimed_map,
                  ),
                );
                confirms = λ u t. (
                  ground (
                    arith,
                    r.confirms u t,
                    alone t,
                    eq_iff u username,
                    lookup-insert_name username u token tm.confirmed_usernames_to_tokens,
                  ),
                  ground (
                    arith,
                    r.confirms u t,
                    alone t,
                    eq_iff u username,
                    lookup-insert_name username u token tm.confirmed_usernames_to_tokens,
                  ),
                );
              },
            )
      ]
