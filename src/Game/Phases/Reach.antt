-- ===== src/Game/Phases/Reach.antt =====
-- The states that a `PokerState` of private_poker/src/game.rs comes to: what the server does with it is
-- a sequence of steps, of users' requests and of actions, in any order.
use private_poker.Prelude.{
  arith, ◌≡◌, refl, ◌∙◌, ap, sym, subst, List, Option, length, done, >>=-eq-done, done-injective,
  Bool-cases, inl, inr,
}
use private_poker.Entities.{Card, Action, Username}
use private_poker.Game.{GameData, GameSettings, Result}
use private_poker.Game.Betting.{act}
use private_poker.Game.Phases.{PokerState, game_data, of_settings}
use private_poker.Game.Phases.Step.{step, phase_transition}
use private_poker.Game.Phases.Requests.{
  Replied, with_data, is_queued, new_user, waitlist_user, remove_user, spectate_user, init_start,
  show_hand, take_action, may_act,
}
use private_poker.Game.Phases.Board.{SameBoard, act-board}
use private_poker.Game.Phases.BoardAfter.{
  new_user-board, waitlist_user-board, remove_user-board, queue_remove_user-board,
  spectate_user-board, queue_spectate_user-board, show_hand-board,
}
use private_poker.Game.Phases.Street.{IsStreet, BoardFits, step-BoardFits, phase_transition_total}

-- The requests that always answer, and the state after one.
pub data Request : Type 0 where
  join wait leave watch start show : Request

abbrev pub request : Request → Username → PokerState → PokerState
request Request.join name s = (new_user name s).0
request Request.wait name s = (waitlist_user name s).0
request Request.leave name s = (remove_user name s).0
request Request.watch name s = (spectate_user name s).0
request Request.start name s = (init_start name s).0
request Request.show name s = (show_hand name s).0

pub data Move : PokerState → PokerState → Type 0 where
  steps :
      {s s' : PokerState} (shuffle : List Card → List Card) → step shuffle s ≡ done s' → Move s s'
  asks : {s : PokerState} (r : Request) (name : Username) → Move s (request r name s)
  acts :
      {s : PokerState} (name : Username) (action : Action) (r : Replied Action)
      → take_action name action s ≡ done r
      → Move s r.0

-- The states that moves lead to from one.
pub data Reach (s : PokerState) : PokerState → Type 0 where
  here : Reach s s
  next : {t u : PokerState} → Reach s t → Move t u → Reach s u

with_data-BoardFits :
    (s : PokerState) (d : GameData)
    → SameBoard (game_data s) d
    → BoardFits s
    → BoardFits (with_data s d)
with_data-BoardFits (PokerState.lobby _ _) d e h = ap length e ∙ h
with_data-BoardFits (PokerState.seat_players _) d e h = ap length e ∙ h
with_data-BoardFits (PokerState.move_button _) d e h = ap length e ∙ h
with_data-BoardFits (PokerState.collect_blinds _) d e h = ap length e ∙ h
with_data-BoardFits (PokerState.deal _) d e h = ap length e ∙ h
with_data-BoardFits (PokerState.take_action _ _) d e h = subst (λ b. IsStreet (length b)) (sym e) h
with_data-BoardFits (PokerState.flop _) d e h = ap length e ∙ h
with_data-BoardFits (PokerState.turn _) d e h = ap length e ∙ h
with_data-BoardFits (PokerState.river _) d e h = ap length e ∙ h
with_data-BoardFits (PokerState.show_hands _ _) d e h = ap length e ∙ h
with_data-BoardFits (PokerState.distribute_pot _ _) d e h = ap length e ∙ h
with_data-BoardFits (PokerState.remove_players _) d e h = ap length e ∙ h
with_data-BoardFits (PokerState.divide_donations _) d e h = ap length e ∙ h
with_data-BoardFits (PokerState.update_blinds _) d e h = ap length e ∙ h
with_data-BoardFits (PokerState.boot_players _) d e h = ap length e ∙ h

new_user-BoardFits :
    (name : Username) (s : PokerState) → BoardFits s → BoardFits (new_user name s).0
unfolding new_user
new_user-BoardFits name s = with_data-BoardFits s _ (new_user-board name (game_data s))

waitlist_user-BoardFits :
    (name : Username) (s : PokerState) → BoardFits s → BoardFits (waitlist_user name s).0
unfolding waitlist_user
waitlist_user-BoardFits name s = with_data-BoardFits s _ (waitlist_user-board name (game_data s))

remove_user-BoardFits :
    (name : Username) (s : PokerState) → BoardFits s → BoardFits (remove_user name s).0
unfolding remove_user
remove_user-BoardFits name s h = elim (Bool-cases (is_queued s)) [
  | inl queued ↦ rw queued (with_data-BoardFits s _ (queue_remove_user-board name (game_data s)) h)
  | inr at_once ↦ rw at_once (with_data-BoardFits s _ (remove_user-board name (game_data s)) h)
]

spectate_user-BoardFits :
    (name : Username) (s : PokerState) → BoardFits s → BoardFits (spectate_user name s).0
unfolding spectate_user
spectate_user-BoardFits name s h = elim (Bool-cases (is_queued s)) [
  | inl queued ↦
      rw queued (with_data-BoardFits s _ (queue_spectate_user-board name (game_data s)) h)
  | inr at_once ↦ rw at_once (with_data-BoardFits s _ (spectate_user-board name (game_data s)) h)
]

init_start-BoardFits :
    (name : Username) (s : PokerState) → BoardFits s → BoardFits (init_start name s).0
unfolding init_start
init_start-BoardFits name (PokerState.lobby d l) h = ground (arith, h)
init_start-BoardFits name (PokerState.seat_players d) h = h
init_start-BoardFits name (PokerState.move_button d) h = h
init_start-BoardFits name (PokerState.collect_blinds d) h = h
init_start-BoardFits name (PokerState.deal d) h = h
init_start-BoardFits name (PokerState.take_action d _) h = h
init_start-BoardFits name (PokerState.flop d) h = h
init_start-BoardFits name (PokerState.turn d) h = h
init_start-BoardFits name (PokerState.river d) h = h
init_start-BoardFits name (PokerState.show_hands d _) h = h
init_start-BoardFits name (PokerState.distribute_pot d _) h = h
init_start-BoardFits name (PokerState.remove_players d) h = h
init_start-BoardFits name (PokerState.divide_donations d) h = h
init_start-BoardFits name (PokerState.update_blinds d) h = h
init_start-BoardFits name (PokerState.boot_players d) h = h

show_hand-BoardFits :
    (name : Username) (s : PokerState) → BoardFits s → BoardFits (show_hand name s).0
unfolding show_hand
show_hand-BoardFits name (PokerState.lobby d l) h = h
show_hand-BoardFits name (PokerState.seat_players d) h = h
show_hand-BoardFits name (PokerState.move_button d) h = h
show_hand-BoardFits name (PokerState.collect_blinds d) h = h
show_hand-BoardFits name (PokerState.deal d) h = h
show_hand-BoardFits name (PokerState.take_action d _) h = h
show_hand-BoardFits name (PokerState.flop d) h = h
show_hand-BoardFits name (PokerState.turn d) h = h
show_hand-BoardFits name (PokerState.river d) h = h
show_hand-BoardFits name (PokerState.show_hands d c) h = ap length (show_hand-board name d) ∙ h
show_hand-BoardFits name (PokerState.distribute_pot d c) h = ap length (show_hand-board name d) ∙ h
show_hand-BoardFits name (PokerState.remove_players d) h = ap length (show_hand-board name d) ∙ h
show_hand-BoardFits name (PokerState.divide_donations d) h = h
show_hand-BoardFits name (PokerState.update_blinds d) h = ap length (show_hand-board name d) ∙ h
show_hand-BoardFits name (PokerState.boot_players d) h = h

request-BoardFits :
    (r : Request) (name : Username) (s : PokerState) → BoardFits s → BoardFits (request r name s)
request-BoardFits Request.join = new_user-BoardFits
request-BoardFits Request.wait = waitlist_user-BoardFits
request-BoardFits Request.leave = remove_user-BoardFits
request-BoardFits Request.watch = spectate_user-BoardFits
request-BoardFits Request.start = init_start-BoardFits
request-BoardFits Request.show = show_hand-BoardFits

-- An action keeps the board, so that it fits whether the action is allowed or not.
acts-BoardFits :
    (name : Username) (action : Action) (d : GameData) (options : Option (List Action))
    (r : Replied Action)
    → take_action name action (PokerState.take_action d options) ≡ done r
    → IsStreet (length d.board)
    → BoardFits r.0
unfolding take_action
acts-BoardFits name action d options r e h =
    let (allowed, e1, r1) = >>=-eq-done (may_act name d) _ e in
    elim (Bool-cases allowed) [
      | inr refused ↦ subst (λ x. BoardFits x.0) (done-injective (rw refused at r1)) h
      | inl accepted ↦
          let (a, e2, r2) = >>=-eq-done (act action options d) _ (rw accepted at r1) in
          subst (λ x. BoardFits x.0) (done-injective r2)
            (subst (λ b. IsStreet (length b)) (sym (act-board action options d a e2)) h)
    ]

-- Any other phase refuses the action and stays.
refused-BoardFits :
    (s : PokerState) (r : Replied Action) (x : Result Action)
    → done (s, x) ≡ done r
    → BoardFits s
    → BoardFits r.0
refused-BoardFits s r x e h = subst (λ y. BoardFits y.0) (done-injective e) h

take_action-BoardFits :
    (name : Username) (action : Action) (s : PokerState) (r : Replied Action)
    → take_action name action s ≡ done r
    → BoardFits s
    → BoardFits r.0
unfolding take_action
take_action-BoardFits name action (PokerState.take_action d options) r e h =
    acts-BoardFits name action d options r e h
take_action-BoardFits name action (PokerState.lobby d l) r e h = refused-BoardFits _ r _ e h
take_action-BoardFits name action (PokerState.seat_players d) r e h = refused-BoardFits _ r _ e h
take_action-BoardFits name action (PokerState.move_button d) r e h = refused-BoardFits _ r _ e h
take_action-BoardFits name action (PokerState.collect_blinds d) r e h = refused-BoardFits _ r _ e h
take_action-BoardFits name action (PokerState.deal d) r e h = refused-BoardFits _ r _ e h
take_action-BoardFits name action (PokerState.flop d) r e h = refused-BoardFits _ r _ e h
take_action-BoardFits name action (PokerState.turn d) r e h = refused-BoardFits _ r _ e h
take_action-BoardFits name action (PokerState.river d) r e h = refused-BoardFits _ r _ e h
take_action-BoardFits name action (PokerState.show_hands d _) r e h = refused-BoardFits _ r _ e h
take_action-BoardFits name action (PokerState.distribute_pot d _) r e h =
    refused-BoardFits _ r _ e h
take_action-BoardFits name action (PokerState.remove_players d) r e h = refused-BoardFits _ r _ e h
take_action-BoardFits name action (PokerState.divide_donations d) r e h =
    refused-BoardFits _ r _ e h
take_action-BoardFits name action (PokerState.update_blinds d) r e h = refused-BoardFits _ r _ e h
take_action-BoardFits name action (PokerState.boot_players d) r e h = refused-BoardFits _ r _ e h

Move-BoardFits : {s t : PokerState} → Move s t → BoardFits s → BoardFits t
Move-BoardFits (steps shuffle e) h = step-BoardFits shuffle _ _ e h
Move-BoardFits (asks r name) h = request-BoardFits r name _ h
Move-BoardFits (acts name action r e) h = take_action-BoardFits name action _ r e h

-- In every state that steps, requests and actions lead to from a new game, the board has the
-- number of cards of its phase: none before and at the flop, three at the turn, four at the river,
-- five from the showdown until the players are booted, and none, three, four or five in a round of
-- betting.
pub Reach-BoardFits :
    (settings : GameSettings) {s : PokerState} → Reach (of_settings settings) s → BoardFits s
unfolding of_settings
Reach-BoardFits settings here = refl
Reach-BoardFits settings (next r m) = Move-BoardFits m (Reach-BoardFits settings r)

-- In every round of betting that a new game comes to, the choice of the next phase by the number
-- of board cards finds one that fits the board: its `unreachable!` is never reached.
pub Reach-phase_transition :
    (settings : GameSettings) (d : GameData) (options : Option (List Action))
    → Reach (of_settings settings) (PokerState.take_action d options)
    → (s : PokerState) × (phase_transition d ≡ done s) × BoardFits s
Reach-phase_transition settings d options r = phase_transition_total d (Reach-BoardFits settings r)
