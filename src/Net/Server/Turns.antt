-- ===== src/Net/Server/Turns.antt =====
-- A turn of the network thread in private_poker/src/net/server.rs: from each state between two turns it
-- comes to another one, unless an error ends the thread.
use private_poker.Prelude.{ℕ, ◌≡◌, refl, sym, subst, true, false, List, [], ◌∷◌}
use private_poker.Entities.{Username}
use private_poker.Net.Messages.{ClientResult, ok, err}
use private_poker.Net.TokenMap.{Token, TokenSet}
use private_poker.Net.Tokens.{Instant, Duration, get_confirmed_username_with_token}
use private_poker.Net.Tokens.Status.{Statuses}
use private_poker.Net.Tokens.Soundness.{
  IsSound, unused_all, new-IsSound, accept-IsSound, recycle-IsSound, expire-IsSound,
}
use private_poker.Net.Server.{Network}
use private_poker.Net.Server.Run.{Run, running, bailed, panicked, ◌>>=◌, lift}
use private_poker.Net.Server.Relay.{reregister}
use private_poker.Net.Server.Relaying.{reregister_all-done, wake-Keeps}
use private_poker.Net.Server.Reading.{AnyReadable, AnyWritable, on_client-Keeps}
use private_poker.Net.Server.Thread.{
  Event, incoming, woken, client, accept, accept_all, on_event, on_events, process_messages,
  leave_confirmed, forget_messages, remove_client, remove_clients, forget_all, expire_clients, turn,
  turns, start,
}
use private_poker.Net.Server.Consistency.{
  AllLive, AllLive-StaysLive, IsConsistent, Keeps, Keeps->>=, Keeps-lift,
}
use private_poker.Net.Server.Processing.{process_all-Advances}

-- An event brings usernames that can be cut, and an error that ends the thread only if `B` holds.
abbrev pub IsExcused : {S : Type 0} → Type 0 → Event S → Type 0
IsExcused B (incoming streams true) = Unit
IsExcused B (incoming streams false) = B
IsExcused B (woken msgs) = Unit
IsExcused B (client token writable readable) = AnyWritable B writable × AnyReadable B readable

abbrev pub AreExcused : {S : Type 0} → Type 0 → List (Event S) → Type 0
AreExcused B [] = Unit
AreExcused B (e ∷ es) = IsExcused B e × AreExcused B es

-- A state between two turns: the tokens have statuses, and no message waits to be processed.
pub record IsQuiet {S : Type 0} (nw : Network S) : Type 0 where
  pub statuses : Statuses
  pub sound : IsSound statuses nw.token_manager
  pub empty : nw.messages_to_process ≡ []

-- A turn or several end in such a state, with an error only if `B` holds, and never in a panic.
abbrev pub EndsQuiet : {S : Type 0} → Type 0 → Run (Network S) → Type 0
EndsQuiet B (running nw) = IsQuiet nw
EndsQuiet B bailed = B
EndsQuiet B panicked = ⊥

module _ {S : Type 0} where
  accept_all-IsConsistent :
      (streams : List (Instant × S)) (nw : Network S)
      → IsConsistent nw
      → IsConsistent (accept_all streams nw)
  unfolding accept_all
  accept_all-IsConsistent [] nw c = c
  accept_all-IsConsistent ((now, stream) ∷ rest) nw c =
      let (g, sound, stays) = accept-IsSound c.statuses nw.token_manager c.sound now stream in
      accept_all-IsConsistent rest (accept now stream nw) (record {
        statuses = g;
        sound = sound;
        live = AllLive-StaysLive c.statuses g nw.messages_to_process stays c.live;
      })

  leave_confirmed-IsQuiet :
      (o : ClientResult Username) (nw : Network S) → IsQuiet nw → IsQuiet (leave_confirmed o nw)
  leave_confirmed-IsQuiet (ok u) nw q = record {
    statuses = q.statuses;
    sound = q.sound;
    empty = q.empty;
  }
  leave_confirmed-IsQuiet (err e) nw q = q

  forget_all-IsQuiet :
      (rs : List (Token × S)) (nw : Network S) → IsQuiet nw → IsQuiet (forget_all rs nw)
  unfolding forget_all
  forget_all-IsQuiet [] nw q = q
  forget_all-IsQuiet ((token, stream) ∷ rs) nw q =
      forget_all-IsQuiet rs (forget_messages token nw)
        (record { statuses = q.statuses; sound = q.sound; empty = q.empty })

module _ {S : Type 0} (B : Type 0) where
  EndsQuiet->>= :
      (m : Run (Network S)) (k : Network S → Run (Network S))
      → EndsQuiet B m
      → ((nw : Network S) → IsQuiet nw → EndsQuiet B (k nw))
      → EndsQuiet B (m >>= k)
  EndsQuiet->>= (running nw) k h next = next nw h
  EndsQuiet->>= bailed k h next = h
  EndsQuiet->>= panicked k h next = h

  Keeps-EndsQuiet :
      (m : Run (Network S)) (k : Network S → Run (Network S))
      → Keeps B m
      → ((nw : Network S) → IsConsistent nw → EndsQuiet B (k nw))
      → EndsQuiet B (m >>= k)
  Keeps-EndsQuiet (running nw) k h next = next nw h
  Keeps-EndsQuiet bailed k h next = h
  Keeps-EndsQuiet panicked k h next = h

  on_event-Keeps :
      (n : ℕ) (e : Event S) (nw : Network S)
      → IsExcused B e
      → IsConsistent nw
      → Keeps B (on_event n e nw)
  unfolding on_event
  on_event-Keeps n (incoming streams true) nw cut c = accept_all-IsConsistent streams nw c
  on_event-Keeps n (incoming streams false) nw cut c = cut
  on_event-Keeps n (woken msgs) nw cut c = Keeps-lift B _ (wake-Keeps msgs nw c)
  on_event-Keeps n (client token writable readable) nw cut c =
      on_client-Keeps B n token writable readable nw c cut.0 cut.1

  on_events-Keeps :
      (n : ℕ) (es : List (Event S)) (nw : Network S)
      → AreExcused B es
      → IsConsistent nw
      → Keeps B (on_events n es nw)
  unfolding on_events
  on_events-Keeps n [] nw cut c = c
  on_events-Keeps n (e ∷ es) nw cut c =
      Keeps->>= B (on_event n e nw) (on_events n es) (on_event-Keeps n e nw cut.0 c)
        (λ nw' c'. on_events-Keeps n es nw' cut.1 c')

  -- The messages are processed, and the streams are registered again.
  process_messages-IsQuiet :
      (nw : Network S) → IsConsistent nw → EndsQuiet B (lift (reregister (process_messages nw)))
  process_messages-IsQuiet nw c =
      let nw0 : Network S = record nw { messages_to_process = [] } in
      let (g, sound, stays, same) =
        process_all-Advances c.statuses nw.messages_to_process nw0 c.sound c.live in
      let nw1 = process_messages nw in
      let nw2 : Network S = record nw1 { tokens_to_reregister = [] } in
      let c2 : IsConsistent nw2 = record {
        statuses = g;
        sound = sound;
        live = subst (AllLive g) (sym same) tt;
      } in
      rw (reregister_all-done nw1.tokens_to_reregister nw2 c2)
        (record { statuses = g; sound = sound; empty = same })

  remove_client-EndsQuiet :
      (token : Token) (nw : Network S) → IsQuiet nw → EndsQuiet B (remove_client token nw)
  unfolding remove_client
  remove_client-EndsQuiet token nw q =
      let (r, runs, g, sound) = recycle-IsSound q.statuses nw.token_manager q.sound token in
      let left =
        leave_confirmed-IsQuiet (get_confirmed_username_with_token token nw.token_manager) nw q in
      rw runs (record { statuses = g; sound = sound; empty = left.empty })

  remove_clients-EndsQuiet :
      (tokens : TokenSet) (nw : Network S) → IsQuiet nw → EndsQuiet B (remove_clients tokens nw)
  unfolding remove_clients
  remove_clients-EndsQuiet [] nw q = q
  remove_clients-EndsQuiet (token ∷ tokens) nw q =
      EndsQuiet->>= (remove_client token nw) (remove_clients tokens)
        (remove_client-EndsQuiet token nw q) (remove_clients-EndsQuiet tokens)

  expire_clients-EndsQuiet :
      (now : Token → Instant) (nw : Network S) → IsQuiet nw → EndsQuiet B (expire_clients now nw)
  unfolding expire_clients
  expire_clients-EndsQuiet now nw q =
      let (r, runs, g, sound) = expire-IsSound q.statuses nw.token_manager q.sound now in
      rw runs (
        forget_all-IsQuiet r.1 (record nw { token_manager = r.0 })
          (record { statuses = g; sound = sound; empty = q.empty }))

  turn-EndsQuiet :
      (n : ℕ) (events : List (Event S)) (now : Token → Instant) (nw : Network S)
      → AreExcused B events
      → IsQuiet nw
      → EndsQuiet B (turn n events now nw)
  unfolding turn
  turn-EndsQuiet n events now nw cut q =
      let c : IsConsistent nw = record {
        statuses = q.statuses;
        sound = q.sound;
        live = subst (AllLive q.statuses) (sym q.empty) tt;
      } in
      Keeps-EndsQuiet (on_events n events nw) _ (on_events-Keeps n events nw cut c) (λ nw1 c1.
        EndsQuiet->>= (lift (reregister (process_messages nw1))) _ (process_messages-IsQuiet nw1 c1)
          (λ nw2 q2.
            let nw3 : Network S = record nw2 { tokens_to_remove = [] } in
            EndsQuiet->>= (remove_clients nw2.tokens_to_remove nw3) (expire_clients now)
              (remove_clients-EndsQuiet nw2.tokens_to_remove nw3
                (record { statuses = q2.statuses; sound = q2.sound; empty = q2.empty }))
              (expire_clients-EndsQuiet now)))

  abbrev pub AllExcused : List (List (Event S) × (Token → Instant)) → Type 0
  AllExcused [] = Unit
  AllExcused (t ∷ ts) = AreExcused B t.0 × AllExcused ts

  turns-EndsQuiet :
      (n : ℕ) (ts : List (List (Event S) × (Token → Instant))) (nw : Network S)
      → AllExcused ts
      → IsQuiet nw
      → EndsQuiet B (turns n ts nw)
  unfolding turns
  turns-EndsQuiet n [] nw cut q = q
  turns-EndsQuiet n ((events, now) ∷ ts) nw cut q =
      EndsQuiet->>= (turn n events now nw) (turns n ts) (turn-EndsQuiet n events now nw cut.0 q)
        (λ nw' q'. turns-EndsQuiet n ts nw' cut.1 q')

  -- Whatever events come in whatever order, the network thread never reaches one of its
  -- `unreachable!` and never panics, and after each number of turns the token manager implements
  -- one status for each token: unused, recycled, or that of one client without a username, with a
  -- claimed or with a confirmed one, such that no two tokens have one username and the server's
  -- own tokens are not given out. The thread ends only if `B` holds, any statement that holds if
  -- an event brings an error of accepting, reading or writing that the code does not expect; with
  -- an absurd one it goes on for ever. The condition: the events bring such an error only if `B`
  -- holds, and each username that is read has at most 16 bytes or a character that begins at byte
  -- 16.
  pub start-EndsQuiet :
      (n : ℕ) (connect : Duration) (ts : List (List (Event S) × (Token → Instant)))
      → AllExcused ts
      → EndsQuiet B (turns n ts (start connect))
  start-EndsQuiet n connect ts cut =
      turns-EndsQuiet n ts (start connect) cut
        (record { statuses = unused_all; sound = new-IsSound connect; empty = refl })
