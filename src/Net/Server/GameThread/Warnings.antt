-- ===== src/Net/Server/GameThread/Warnings.antt =====
-- Whom the game thread of private_poker/src/net/server.rs has sent a turn signal.
use private_poker.Prelude.{
  ◌≡◌, ◌≤◌, refl, subst, ◌⊎◌, Bool-cases, inl, inr, List, [], ◌∷◌, ◌++◌, Option, none, some, leb,
  ◌-◌, done, >>=-eq-done, done-injective,
}
use private_poker.Entities.{Action, Username, fold}
use private_poker.Game.{Result}
use private_poker.Game.Phases.{PokerState}
use private_poker.Game.Phases.Requests.{
  Replied, get_next_action_username, get_action_options, remove_user,
}
use private_poker.Net.Messages.{ClientMessage, UserCommand, turn_signal}
use private_poker.Net.Server.{ServerData}
use private_poker.Net.Server.GameThread.{
  tell, Received, Host, Waiting, Verdict, goes_on, waits, breaks, fails, as_secs, perform, answer,
  handle, serve, removed, waited, after,
}

-- What the thread has sent.
abbrev pub WasSent : ServerData → List ServerData → Type 0
WasSent m [] = ⊥
WasSent m (x ∷ xs) = (x ≡ m) ⊎ WasSent m xs

WasSent-append : (m : ServerData) (xs ys : List ServerData) → WasSent m xs → WasSent m (xs ++ ys)
WasSent-append m [] ys h = absurd h
WasSent-append m (x ∷ xs) ys (inl here) = inl here
WasSent-append m (x ∷ xs) ys (inr later) = inr (WasSent-append m xs ys later)

pub WasSent-snoc : (m : ServerData) (xs : List ServerData) → WasSent m (xs ++ (m ∷ []))
WasSent-snoc m [] = inl refl
WasSent-snoc m (x ∷ xs) = inr (WasSent-snoc m xs)

-- A user who was sent a turn signal.
abbrev pub IsWarned : Username → Host → Type 0
IsWarned u h =
    (options : List Action) × WasSent (ServerData.response u (turn_signal options)) h.sent

-- The user whose turn it was last is warned.
abbrev pub HasWarned : Waiting → Type 0
HasWarned w = (u : Username) → w.next_action_username ≡ some u → IsWarned u w.host

-- The same, or there is time left, and the user has the turn now.
abbrev pub StartsFair : Waiting → Type 0
StartsFair w =
    (u : Username)
    → w.next_action_username ≡ some u
    → IsWarned u w.host
      ⊎ ((1 ≤ as_secs w.timeout)
          × (get_next_action_username w.host.state ≡ done (some u))
          × (options : List Action) × (get_action_options w.host.state ≡ some options))

-- The end of the loop at a wait of which less than a second is left: nobody has to act, and nothing
-- changes, or who has the turn was warned, folds and is removed.
abbrev pub EndsFair : Waiting → Host → Type 0
EndsFair w h =
    (as_secs w.timeout ≡ 0)
    × (((h ≡ w.host)
          × ((get_next_action_username w.host.state ≡ done none)
              ⊎ (get_action_options w.host.state ≡ none)))
        ⊎ ((u : Username) × (get_next_action_username w.host.state ≡ done (some u))
            × IsWarned u w.host
            × (h.state ≡ (remove_user u w.host.state).0)
            × WasSent
                (ServerData.ack (record { username = u; command = UserCommand.take_action fold }))
                h.sent))

abbrev pub IsFair : Waiting → Verdict → Type 0
IsFair w (goes_on w') = HasWarned w'
IsFair w (breaks h) = EndsFair w h
IsFair w (waits w') = Unit
IsFair w (fails h) = Unit

-- Answers only add to what was sent.
answer-HasWarned :
    (msg : ClientMessage) (w : Waiting) (r : PokerState × Result UserCommand)
    → HasWarned w
    → HasWarned (answer msg w r)
answer-HasWarned msg w (s, Result.ok c) h u e =
    let (options, sent) = h u e in
    (options, WasSent-append _ _ _ (WasSent-append _ w.host.sent _ sent))
answer-HasWarned msg w (s, Result.err x) h u e =
    let (options, sent) = h u e in (options, WasSent-append _ w.host.sent _ sent)

handle-HasWarned :
    (m : Option ClientMessage) (w w' : Waiting) → HasWarned w → handle m w ≡ done w' → HasWarned w'
handle-HasWarned none w w' h e = subst HasWarned (done-injective e) h
handle-HasWarned (some msg) w w' h e =
    let (r, performs, ends) = >>=-eq-done (perform msg.username msg.command w.host.state) _ e in
    subst HasWarned (done-injective ends) (answer-HasWarned msg w r h)

serve-HasWarned :
    (rs : Received) (w : Waiting) (o : Waiting × Received)
    → HasWarned w
    → serve rs w ≡ done o
    → HasWarned o.0
unfolding serve
serve-HasWarned [] w o h e = subst (λ x. HasWarned x.0) (done-injective e) h
serve-HasWarned ((m, elapsed) ∷ rest) w o h e = elim (Bool-cases (leb 1 (as_secs w.timeout))) [
  | inl more ↦
      let (w', handled, served) = >>=-eq-done (handle m w) _ (rw more at e) in
      serve-HasWarned rest (record w' { timeout = w'.timeout - elapsed }) o
        (handle-HasWarned m w w' h handled) served
  | inr over ↦ subst (λ x. HasWarned x.0) (done-injective (rw over at e)) h
]

waited-IsFair : (v w : Waiting) → HasWarned w → IsFair v (waited w)
waited-IsFair v w h = elim (Bool-cases (leb 1 (as_secs w.timeout))) [
  | inl more ↦ rw more tt
  | inr over ↦ rw over h
]

pub after-IsFair :
    (v : Waiting) (rs : Received) (d : Verdict) (o : Verdict × Received)
    → IsFair v d
    → after rs d ≡ done o
    → IsFair v o.0
after-IsFair v rs (goes_on w) o h e =
    let (r, served, ends) = >>=-eq-done (serve rs w) _ e in
    subst (λ x. IsFair v x.0) (done-injective ends)
      (waited-IsFair v r.0 (serve-HasWarned rs w r h served))
after-IsFair v rs (waits w) o h e = subst (λ x. IsFair v x.0) (done-injective e) tt
after-IsFair v rs (breaks h') o h e = subst (λ x. IsFair v x.0) (done-injective e) h
after-IsFair v rs (fails h') o h e = subst (λ x. IsFair v x.0) (done-injective e) tt

-- A forced fold is fair if time is up for a user who has the turn and is warned.
pub removed-IsFair :
    (username : Username) (w : Waiting) (r : Replied (Unit {0}))
    → as_secs w.timeout ≡ 0
    → get_next_action_username w.host.state ≡ done (some username)
    → IsWarned username w.host
    → r.0 ≡ (remove_user username w.host.state).0
    → IsFair w (
        removed
          (tell
            (ServerData.ack
              (record { username = username; command = UserCommand.take_action fold }))
            w.host)
          r)
removed-IsFair username w (s, Result.ok u) time turn warned e =
    (time, inr (username, turn, warned, e, WasSent-snoc _ w.host.sent))
removed-IsFair username w (s, Result.err x) time turn warned e = tt
