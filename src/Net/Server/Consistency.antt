-- ===== src/Net/Server/Consistency.antt =====
-- What stays true of the state of the network thread in private_poker/src/net/server.rs while it
-- handles the events of a turn.
use private_poker.Prelude.{◌≡◌, false, [], ◌∷◌, arith, subst, Outcome, done, panic}
use private_poker.Prelude.{◌>>=◌ as bind}
use private_poker.Net.TokenMap.{Token, TokenMap, insert}
use private_poker.Net.Tokens.Status.{Statuses, is_idle}
use private_poker.Net.Tokens.Soundness.{IsSound, StaysLive}
use private_poker.Net.Server.{Network}
use private_poker.Net.Server.Run.{Run, running, bailed, panicked, ◌>>=◌, lift}

abbrev pub AllLive {ℓ} : {A : Type ℓ} → Statuses → TokenMap A → Type ℓ
AllLive f [] = Unit
AllLive f (e ∷ m) = (is_idle (f e.0) ≡ false) × AllLive f m

pub AllLive-StaysLive {ℓ} :
    {A : Type ℓ} (f g : Statuses) (m : TokenMap A) → StaysLive f g → AllLive f m → AllLive g m
AllLive-StaysLive f g [] stays h = tt
AllLive-StaysLive f g (e ∷ m) stays h = (stays e.0 h.0, AllLive-StaysLive f g m stays h.1)

pub AllLive-insert {ℓ} :
    {A : Type ℓ} (f : Statuses) (k : Token) (v : A) (m : TokenMap A)
    → is_idle (f k) ≡ false
    → AllLive f m
    → AllLive f (insert k v m)
unfolding insert
AllLive-insert f k v [] live h = (live, tt)
AllLive-insert f k v (e ∷ m) live h = ground (arith, AllLive-insert f k v m live h.1)

-- The tokens have statuses, and those with messages to be processed have clients.
pub record IsConsistent {S : Type 0} (nw : Network S) : Type 0 where
  pub statuses : Statuses
  pub sound : IsSound statuses nw.token_manager
  pub live : AllLive statuses nw.messages_to_process

-- A step panics in no case, leaves a consistent state, and ends the thread only if `B` holds.
abbrev pub Keeps : {S : Type 0} → Type 0 → Run (Network S) → Type 0
Keeps B (running nw) = IsConsistent nw
Keeps B bailed = B
Keeps B panicked = ⊥

pub Keeps->>= :
    {S : Type 0} (B : Type 0) (m : Run (Network S)) (k : Network S → Run (Network S))
    → Keeps B m
    → ((nw : Network S) → IsConsistent nw → Keeps B (k nw))
    → Keeps B (m >>= k)
Keeps->>= B (running nw) k h next = next nw h
Keeps->>= B bailed k h next = h
Keeps->>= B panicked k h next = h

abbrev pub KeepsDone : {S : Type 0} → Outcome (Network S) → Type 0
KeepsDone (done nw) = IsConsistent nw
KeepsDone panic = ⊥

pub KeepsDone->>= :
    {S : Type 0} (m : Outcome (Network S)) (k : Network S → Outcome (Network S))
    → KeepsDone m
    → ((nw : Network S) → IsConsistent nw → KeepsDone (k nw))
    → KeepsDone (bind m k)
KeepsDone->>= (done nw) k h next = next nw h
KeepsDone->>= panic k h next = h

pub Keeps-lift :
    {S : Type 0} (B : Type 0) (m : Outcome (Network S)) → KeepsDone m → Keeps B (lift m)
Keeps-lift B (done nw) h = h
Keeps-lift B panic h = h

-- Only the messages to be written and the registrations change.
pub unchanged :
    {S : Type 0} {nw nw' : Network S}
    → IsConsistent nw
    → nw.token_manager ≡ nw'.token_manager
    → nw.messages_to_process ≡ nw'.messages_to_process
    → IsConsistent nw'
unchanged c same same' = record {
  statuses = c.statuses;
  sound = subst (λ tm. IsSound c.statuses tm) same c.sound;
  live = subst (λ m. AllLive c.statuses m) same' c.live;
}
