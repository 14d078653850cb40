-- ===== src/Net/Server/GameThread.antt =====
-- The game thread of private_poker/src/net/server.rs: what it does between two states of the poker
-- game. The texts that it sends are arguments, as is what it receives: for each wait, a message or
-- none, and the time that has passed.
pub mod Replies
pub mod Acting
pub mod Effects
pub mod Warnings
pub mod Endings
use private_poker.Prelude.{
  ℕ, zero, suc, ◌-◌, ◌/◌, Bool, true, false, ◌&&◌, String, List, [], ◌∷◌, ◌++◌, Option, none, some,
  leb, ◌==◌, str_eq, if◌then◌else◌, Outcome, done, ◌>>=◌,
}
use private_poker.Entities.{Action, Card, Username, fold}
use private_poker.Game.{Result}
use private_poker.Game.Phases.{PokerState}
use private_poker.Game.Phases.Step.{step}
use private_poker.Game.Phases.Requests.{
  Replied, new_user, waitlist_user, remove_user, spectate_user, init_start, show_hand, take_action,
  get_action_options, get_next_action_username, get_views,
}
use private_poker.Net.Messages.{
  UserState, UserCommand, ClientMessage, ServerMessage, play, spectate, change_state, connect,
  leave, turn_signal, user_error,
}
use private_poker.Net.Tokens.{Duration}
use private_poker.Net.Server.{ServerData}

-- A `Duration` in nanoseconds.
abbrev pub as_secs : Duration → ℕ
as_secs d = d / 1000000000

-- What is received: for each wait, a message or none, and the time that it took.
abbrev pub Received : Type 0
Received = List (Option ClientMessage × Duration)

-- The local variables of the outer loop, and what the thread has sent.
pub record Host : Type 0 where
  pub state : PokerState
  pub status : String
  pub sent : List ServerData

-- Those of the inner loop.
pub record Waiting : Type 0 where
  pub host : Host
  pub next_action_username : Option Username
  pub timeout : Duration

abbrev pub tell : ServerData → Host → Host
tell msg h = record h { sent = h.sent ++ (msg ∷ []) }

-- What a command returns, with the command that is acknowledged for it.
abbrev pub as_reply {ℓ} :
    {A : Type ℓ} → (A → UserCommand) → PokerState × Result A → PokerState × Result UserCommand
as_reply acked (s, Result.ok a) = (s, Result.ok (acked a))
as_reply acked (s, Result.err e) = (s, Result.err e)

unfoldable pub perform :
    Username → UserCommand → PokerState → Outcome (PokerState × Result UserCommand)
perform name (change_state play) s = done (as_reply (λ _. change_state play) (waitlist_user name s))
perform name (change_state spectate) s =
    done (as_reply (λ _. change_state spectate) (spectate_user name s))
perform name connect s = done (as_reply (λ _. connect) (new_user name s))
perform name leave s = done (as_reply (λ _. leave) (remove_user name s))
perform name UserCommand.show_hand s =
    done (as_reply (λ _. UserCommand.show_hand) (show_hand name s))
perform name UserCommand.start_game s =
    done (as_reply (λ _. UserCommand.start_game) (init_start name s))
perform name (UserCommand.take_action a) s =
    take_action name a s >>= λ r. done (as_reply UserCommand.take_action r)

-- An action that is accepted ends the wait.
abbrev pub rest_of : UserCommand → Duration → Duration
rest_of (UserCommand.take_action _) timeout = 0
rest_of (change_state _) timeout = timeout
rest_of connect timeout = timeout
rest_of leave timeout = timeout
rest_of UserCommand.show_hand timeout = timeout
rest_of UserCommand.start_game timeout = timeout

-- A command that is accepted is acknowledged to all, an error goes to the user.
abbrev pub answer : ClientMessage → Waiting → PokerState × Result UserCommand → Waiting
answer msg w (s, Result.ok command) = record w {
  host =
      tell (ServerData.views (get_views s))
        (tell (ServerData.ack (record msg { command = command })) (record (w.host) { state = s }));
  timeout = rest_of command w.timeout;
}
answer msg w (s, Result.err e) = record w {
  host = tell (ServerData.response msg.username (user_error e)) (record (w.host) { state = s });
}

abbrev pub handle : Option ClientMessage → Waiting → Outcome Waiting
handle none w = done w
handle (some msg) w = perform msg.username msg.command w.host.state >>= λ r. done (answer msg w r)

-- The loop that waits for messages until the time is up; also what it has not received.
unfoldable pub serve : Received → Waiting → Outcome (Waiting × Received)
unfolding perform
serve [] w = done (w, [])
serve ((m, elapsed) ∷ rest) w =
    let later = handle m w >>= λ w'. serve rest (record w' { timeout = w'.timeout - elapsed }) in
    if leb 1 (as_secs w.timeout) then later else done (w, (m, elapsed) ∷ rest)

-- How a round of the inner loop ends: the loop goes on or is over, an error ends the thread, or time
-- is left to wait for what is not among the received.
pub data Verdict : Type 0 where
  goes_on : Waiting → Verdict
  waits : Waiting → Verdict
  breaks : Host → Verdict
  fails : Host → Verdict

abbrev pub removed : Host → Replied (Unit {0}) → Verdict
removed h (s, Result.ok _) = breaks (record h { state = s })
removed h (s, Result.err _) = fails (record h { state = s })

-- The loop goes on, unless the last round was over.
abbrev pub again :
    (Received → Waiting → Outcome (Verdict × Received))
    → Verdict × Received
    → Outcome (Verdict × Received)
again k (goes_on w, rs) = k rs w
again k (waits w, rs) = done (waits w, rs)
again k (breaks h, rs) = done (breaks h, rs)
again k (fails h, rs) = done (fails h, rs)

-- A user who ran out of time folds, and leaves after the hand.
abbrev pub force_fold : Username → Host → Verdict
force_fold username h =
    let msg : ClientMessage = record {
      username = username;
      command = UserCommand.take_action fold;
    } in
    removed (tell (ServerData.ack msg) h) (remove_user username h.state)

-- The wait is over only when less than a second is left.
abbrev pub waited : Waiting → Verdict
waited w = if leb 1 (as_secs w.timeout) then waits w else goes_on w

-- The wait after the check.
abbrev pub after : Received → Verdict → Outcome (Verdict × Received)
after rs (goes_on w) = serve rs w >>= λ r. done (waited r.0, r.1)
after rs (waits w) = done (waits w, rs)
after rs (breaks h) = done (breaks h, rs)
after rs (fails h) = done (fails h, rs)

module _ (announce : Username → List Action → String) (action_timeout : Duration) where
  -- All are told whose turn it is, and the user what can be done.
  abbrev pub signal : Username → List Action → Waiting → Waiting
  signal username options w = record {
    host =
        tell (ServerData.response username (turn_signal options))
          (tell (ServerData.status (announce username options)) w.host);
    next_action_username = some username;
    timeout = action_timeout;
  }

  abbrev pub decide_turn : Username → List Action → Option Username → Waiting → Verdict
  decide_turn username options none w = goes_on w
  decide_turn username options (some last) w =
      if (as_secs w.timeout == 0) && str_eq username last
      then force_fold username w.host
      else goes_on (signal username options w)

  abbrev pub decide : Option Username → Option (List Action) → Waiting → Verdict
  decide (some username) (some options) w = decide_turn username options w.next_action_username w
  decide (some username) none w = if as_secs w.timeout == 0 then breaks w.host else goes_on w
  decide none options w = if as_secs w.timeout == 0 then breaks w.host else goes_on w

  -- One round of the loop `'command`, and what is left to be received.
  unfoldable pub command_round : Received → Waiting → Outcome (Verdict × Received)
  unfolding serve
  command_round rs w = get_next_action_username w.host.state >>= λ name.
      after rs (decide name (get_action_options w.host.state) w)

  -- The first rounds of it, until it breaks.
  unfoldable pub command_rounds : ℕ → Received → Waiting → Outcome (Verdict × Received)
  unfolding command_round
  command_rounds zero rs w = done (goes_on w, rs)
  command_rounds (suc n) rs w = command_round rs w >>= again (command_rounds n)

-- The start of a round of the outer loop: new statuses are sent, the game makes a step, and all
-- users get their views.
module _ (describe : PokerState → String) where
  abbrev pub report : Host → Host
  report h =
      let repr = describe h.state in
      if str_eq h.status repr then h else tell (ServerData.status repr) (record h { status = repr })

  unfoldable pub advance : Duration → (List Card → List Card) → Host → Outcome Waiting
  advance step_timeout shuffle h =
      let h' = report h in
      step shuffle h'.state >>= λ s. get_next_action_username s >>= λ name. done (record {
        host = tell (ServerData.views (get_views s)) (record h' { state = s });
        next_action_username = name;
        timeout = step_timeout;
      })

  -- One round of the outer loop, with at most so many rounds of the inner one.
  unfoldable pub outer_round :
      (Username → List Action → String)
      → Duration
      → Duration
      → (List Card → List Card)
      → ℕ
      → Received
      → Host
      → Outcome (Verdict × Received)
  unfolding advance command_rounds
  outer_round announce action_timeout step_timeout shuffle n rs h =
      advance step_timeout shuffle h >>= λ w. command_rounds announce action_timeout n rs w
