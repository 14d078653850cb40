-- ===== src/Net/Server/GameThread/Endings.antt =====
-- How the inner loop of the game thread in private_poker/src/net/server.rs ends, and for whom it folds.
use mathlib.Core.Option.{some-injective}
use private_poker.Prelude.{
  ℕ, zero, suc, ◌≡◌, refl, ◌∙◌, ap, subst, ◌⊎◌, Bool-cases, inl, inr, List, Option, none, some,
  String, ◌==◌, ◌&&◌, ==_iff, eq_iff, str_eq, done, >>=-eq-done, done-injective, arith,
  if◌then◌else◌,
}
use private_poker.Entities.{Action, Username}
use private_poker.Game.Phases.Requests.{get_next_action_username, get_action_options, remove_user}
use private_poker.Net.Messages.{turn_signal}
use private_poker.Net.Tokens.{Duration}
use private_poker.Net.Server.{ServerData}
use private_poker.Net.Server.GameThread.{
  Received, Host, Waiting, Verdict, goes_on, waits, breaks, fails, as_secs, decide_turn, decide,
  command_round, again, command_rounds, signal,
}
use private_poker.Net.Server.GameThread.Warnings.{
  WasSent-snoc, IsWarned, HasWarned, StartsFair, EndsFair, IsFair, after-IsFair, removed-IsFair,
}

module _ (announce : Username → List Action → String) (action_timeout : Duration) where
  -- A user who runs out of time has been warned.
  late-IsWarned :
      (username last : Username) (w : Waiting)
      → w.next_action_username ≡ some last
      → as_secs w.timeout ≡ 0
      → username ≡ last
      → StartsFair w
      → IsWarned username w.host
  late-IsWarned username last w e time same fair = elim (fair username (rw (same, e) refl)) [
    | inl warned ↦ warned
    | inr early ↦ absurd (omega (arith, early.0, time))
  ]

  signal-HasWarned :
      (username : Username) (options : List Action) (w : Waiting)
      → HasWarned (signal announce action_timeout username options w)
  signal-HasWarned username options w u e =
      subst (λ x. IsWarned x (signal announce action_timeout username options w).host)
        (some-injective _ _ e)
        (options, WasSent-snoc (ServerData.response username (turn_signal options)) _)

  decide_turn-IsFair :
      (username : Username) (options : List Action) (last : Option Username) (w : Waiting)
      → w.next_action_username ≡ last
      → get_next_action_username w.host.state ≡ done (some username)
      → StartsFair w
      → IsFair w (decide_turn announce action_timeout username options last w)
  decide_turn-IsFair username options none w e turn fair = λ u e'. cc
  decide_turn-IsFair username options (some last) w e turn fair =
      elim (Bool-cases ((as_secs w.timeout == 0) && str_eq username last)) [
        | inl late ↦
            let time : as_secs w.timeout ≡ 0 = ground (arith, late, ==_iff (as_secs w.timeout) 0) in
            let same : username ≡ last = ground (arith, late, eq_iff username last) in
            rw late (
              removed-IsFair username w (remove_user username w.host.state) time turn
                (late-IsWarned username last w e time same fair) refl)
        | inr early ↦ rw early (signal-HasWarned username options w)
      ]

  idle-HasWarned :
      (w : Waiting)
      → (get_next_action_username w.host.state ≡ done none)
        ⊎ (get_action_options w.host.state ≡ none)
      → StartsFair w
      → HasWarned w
  idle-HasWarned w idle fair u e = elim (fair u e) [
    | inl warned ↦ warned
    | inr (time, turn, options, offered) ↦ elim idle [ inl nobody ↦ cc | inr nothing ↦ cc ]
  ]

  -- Nobody has to act.
  idle-IsFair :
      (w : Waiting)
      → (get_next_action_username w.host.state ≡ done none)
        ⊎ (get_action_options w.host.state ≡ none)
      → StartsFair w
      → IsFair w (if as_secs w.timeout == 0 then breaks w.host else goes_on w)
  idle-IsFair w idle fair = elim (Bool-cases (as_secs w.timeout == 0)) [
    | inl over ↦ rw over ((==_iff (as_secs w.timeout) 0).0 over, inl (refl, idle))
    | inr more ↦ rw more (idle-HasWarned w idle fair)
  ]

  decide-IsFair :
      (name : Option Username) (options : Option (List Action)) (w : Waiting)
      → get_next_action_username w.host.state ≡ done name
      → get_action_options w.host.state ≡ options
      → StartsFair w
      → IsFair w (decide announce action_timeout name options w)
  decide-IsFair (some username) (some options) w turn offered fair =
      decide_turn-IsFair username options w.next_action_username w refl turn fair
  decide-IsFair (some username) none w turn offered fair = idle-IsFair w (inr offered) fair
  decide-IsFair none options w turn offered fair = idle-IsFair w (inl turn) fair

  command_round-IsFair :
      (rs : Received) (w : Waiting) (o : Verdict × Received)
      → StartsFair w
      → command_round announce action_timeout rs w ≡ done o
      → IsFair w o.0
  unfolding command_round
  command_round-IsFair rs w o fair e =
      let (name, turn, rest) = >>=-eq-done (get_next_action_username w.host.state) _ e in
      after-IsFair w rs _ o (decide-IsFair name _ w turn refl fair) rest

  -- The wait that some rounds lead to, at which the loop ends.
  abbrev pub LoopEnds : Received → Waiting → Host → Type 0
  LoopEnds rs w h =
      (k : ℕ) × (w' : Waiting) × (rs' : Received) × (command_rounds announce action_timeout k rs w
        ≡ done (goes_on w', rs'))
      × EndsFair w' h

  again-LoopEnds :
      (n : ℕ) (rs : Received) (w : Waiting) (r o : Verdict × Received) (h : Host)
      → ((rs' : Received) (w' : Waiting)
          → HasWarned w'
          → command_rounds announce action_timeout n rs' w' ≡ done o
          → LoopEnds rs' w' h)
      → IsFair w r.0
      → command_round announce action_timeout rs w ≡ done r
      → again (command_rounds announce action_timeout n) r ≡ done o
      → o.0 ≡ breaks h
      → LoopEnds rs w h
  unfolding command_rounds
  again-LoopEnds n rs w (goes_on w', rs') o h later fair round e broken =
      let (k, w'', rs'', rounds, ends) = later rs' w' fair e in
      (suc k, w'', rs'', rw round rounds, ends)
  again-LoopEnds n rs w (breaks g, rs') o h later fair round e broken =
      (zero, w, rs, refl, subst (IsFair w) (ap (λ x. x.0) (done-injective e) ∙ broken) fair)
  again-LoopEnds n rs w (waits w', rs') o h later fair round e broken =
      cc (ap (λ x. x.0) (done-injective e) ∙ broken)
  again-LoopEnds n rs w (fails g, rs') o h later fair round e broken =
      cc (ap (λ x. x.0) (done-injective e) ∙ broken)

  -- However many rounds the inner loop takes and whatever comes in, it breaks only at a wait,
  -- reached by its rounds, of which less than a second is left. Then either nobody has to act, and
  -- the game and what was sent are as they were at this wait, or the user who has the turn was
  -- sent a turn signal before, all are told that this user folds, and the game is what
  -- `remove_user` makes of it for this user. The condition on the start of the loop: if the thread
  -- holds a user for the last to have the turn, this user was sent a turn signal, or has the turn
  -- now, with options and at least a second left.
  pub command_rounds-LoopEnds :
      (n : ℕ) (rs : Received) (w : Waiting) (o : Verdict × Received) (h : Host)
      → StartsFair w
      → command_rounds announce action_timeout n rs w ≡ done o
      → o.0 ≡ breaks h
      → LoopEnds rs w h
  unfolding command_rounds
  command_rounds-LoopEnds zero rs w o h fair e broken =
      cc (ap (λ x. x.0) (done-injective e) ∙ broken)
  command_rounds-LoopEnds (suc n) rs w o h fair e broken =
      let (r, round, rest) = >>=-eq-done (command_round announce action_timeout rs w) _ e in
      again-LoopEnds n rs w r o h
        (λ rs' w' warned e'.
          command_rounds-LoopEnds n rs' w' o h (λ u last. inl (warned u last)) e' broken)
        (command_round-IsFair rs w r fair round) round rest broken
