-- ===== src/Game/Phases/Street.antt =====
-- The number of cards on the board in each phase.
use private_poker.Prelude.{
  ℕ, ◌+◌, ◌≡◌, refl, ◌∙◌, ap, sym, ◌⊎◌, List, [], arith, length, Option, leb, Outcome, done, ◌>>=◌,
  >>=-eq-done, done-injective, subst, Bool-cases, inl, inr, if◌then◌else◌,
}
use private_poker.Entities.{Card, Action}
use private_poker.Game.{GameData, Result, ok, err}
use private_poker.Game.Queries.{
  get_num_pots, is_ready_for_next_phase, is_ready_for_showdown, prepare_for_next_phase,
  get_num_community_cards,
}
use private_poker.Game.Blinds
use private_poker.Game.Deal
use private_poker.Game.Betting.{act, Acted}
use private_poker.Game.Showdown
use private_poker.Game.Showdown.{HandEvalCache}
use private_poker.Game.Cleanup
use private_poker.Game.Phases.{PokerState}
use private_poker.Game.Phases.Step.{
  phase_transition, after_fold, start_betting, step_lobby, step_seat_players, step_take_action,
  step_flop, step_turn, step_river, step_distribute_pot, step,
}
use private_poker.Game.Phases.Board.{
  SameBoard, seat_players-board, move_button-board, collect_blinds-board, deal-board, length-draw,
  act-board, prepare_for_next_phase-board,
}
use private_poker.Game.Phases.BoardAfter.{
  show_hands-board, distribute-board, remove_players-board, divide_donations-board,
  update_blinds-board, boot_players-board,
}

-- A round of betting is played on no card, or on three, four or five.
abbrev pub IsStreet : ℕ → Type 0
IsStreet n = (n ≡ 0) ⊎ ((n ≡ 3) ⊎ ((n ≡ 4) ⊎ (n ≡ 5)))

abbrev pub BoardFits : PokerState → Type 0
BoardFits (PokerState.lobby d _) = length d.board ≡ 0
BoardFits (PokerState.seat_players d) = length d.board ≡ 0
BoardFits (PokerState.move_button d) = length d.board ≡ 0
BoardFits (PokerState.collect_blinds d) = length d.board ≡ 0
BoardFits (PokerState.deal d) = length d.board ≡ 0
BoardFits (PokerState.take_action d _) = IsStreet (length d.board)
BoardFits (PokerState.flop d) = length d.board ≡ 0
BoardFits (PokerState.turn d) = length d.board ≡ 3
BoardFits (PokerState.river d) = length d.board ≡ 4
BoardFits (PokerState.show_hands d _) = length d.board ≡ 5
BoardFits (PokerState.distribute_pot d _) = length d.board ≡ 5
BoardFits (PokerState.remove_players d) = length d.board ≡ 5
BoardFits (PokerState.divide_donations d) = length d.board ≡ 5
BoardFits (PokerState.update_blinds d) = length d.board ≡ 5
BoardFits (PokerState.boot_players d) = length d.board ≡ 5

-- On a board of a street the next phase exists, and fits.
pub phase_transition_total :
    (d : GameData)
    → IsStreet (length d.board)
    → (s : PokerState) × (phase_transition d ≡ done s) × BoardFits s
unfolding phase_transition get_num_community_cards
phase_transition_total d (inl e) = (PokerState.flop d, rw e refl, e)
phase_transition_total d (inr (inl e)) = (PokerState.turn d, rw e refl, e)
phase_transition_total d (inr (inr (inl e))) = (PokerState.river d, rw e refl, e)
phase_transition_total d (inr (inr (inr e))) = (PokerState.show_hands d [], rw e refl, e)

phase_transition-BoardFits :
    (d : GameData) (s : PokerState)
    → phase_transition d ≡ done s
    → IsStreet (length d.board)
    → BoardFits s
phase_transition-BoardFits d s e street =
    let (s', e', fits) = phase_transition_total d street in
    subst BoardFits (done-injective (sym e' ∙ e)) fits

start_betting-BoardFits :
    (d : GameData) (s : PokerState)
    → start_betting d ≡ done s
    → IsStreet (length d.board)
    → BoardFits s
unfolding start_betting
start_betting-BoardFits d s e street =
    let (r, e1, r1) = >>=-eq-done (prepare_for_next_phase d) _ e in
    subst BoardFits (done-injective r1)
      (subst (λ b. IsStreet (length b)) (sym (prepare_for_next_phase-board d r e1)) street)

after_fold-BoardFits :
    (r : Result Action) (a : Acted) (s : PokerState)
    → after_fold r a ≡ done s
    → IsStreet (length a.game_data.board)
    → BoardFits s
after_fold-BoardFits (err x) a s e street = cc
after_fold-BoardFits (ok x) a s e street = elim (Bool-cases (is_ready_for_next_phase a.game_data)) [
  | inl over ↦ phase_transition-BoardFits a.game_data s (rw over at e) street
  | inr goes_on ↦ subst BoardFits (done-injective (rw goes_on at e)) street
]

step_take_action-BoardFits :
    (d : GameData) (options : Option (List Action)) (s : PokerState)
    → step_take_action d options ≡ done s
    → IsStreet (length d.board)
    → BoardFits s
unfolding step_take_action
step_take_action-BoardFits d options s e street = elim (Bool-cases (is_ready_for_next_phase d)) [
  | inl over ↦ phase_transition-BoardFits d s (rw over at e) street
  | inr goes_on ↦
      let (a, e1, r1) = >>=-eq-done (act Action.fold options d) _ (rw goes_on at e) in
      after_fold-BoardFits a.result a s r1
        (subst (λ b. IsStreet (length b)) (sym (act-board Action.fold options d a e1)) street)
]

-- A street deals its cards; the next phase and a round of betting both fit the board.
street-BoardFits :
    (deal : GameData → Outcome GameData) (next : GameData → PokerState) (n : ℕ) (d : GameData)
    (s : PokerState)
    → ((d' : GameData) → deal d ≡ done d' → length d'.board ≡ n)
    → ((d' : GameData) → length d'.board ≡ n → BoardFits (next d'))
    → IsStreet n
    → (deal d >>= λ d'. if is_ready_for_showdown d then done (next d') else start_betting d')
      ≡ done s
    → BoardFits s
street-BoardFits deal next n d s deals fits street e =
    let (d1, e1, r1) = >>=-eq-done (deal d) _ e in
    elim (Bool-cases (is_ready_for_showdown d)) [
      | inl ready ↦
          let r2 : done (next d1) ≡ done s = rw ready at r1 in
          subst BoardFits (done-injective r2) (fits d1 (deals d1 e1))
      | inr not_ready ↦
          let r2 : start_betting d1 ≡ done s = rw not_ready at r1 in
          start_betting-BoardFits d1 s r2 (subst IsStreet (sym (deals d1 e1)) street)
    ]

length-flop : (d d' : GameData) → Deal.flop d ≡ done d' → length d'.board ≡ length d.board + 3
unfolding Deal.flop
length-flop d d' e =
    let (d1, e1, r1) = >>=-eq-done (Deal.draw d) _ e in
    let (d2, e2, r2) = >>=-eq-done (Deal.draw d1) _ r1 in
    omega (arith, length-draw d d1 e1, length-draw d1 d2 e2, length-draw d2 d' r2)

-- A step through one transition that leaves the board alone.
kept :
    {A : Type 0} (m : Outcome A) (f : A → GameData) (next : A → PokerState) (d : GameData)
    (s : PokerState) (n : ℕ)
    → ((a : A) → m ≡ done a → SameBoard d (f a))
    → ((a : A) → length (f a).board ≡ n → BoardFits (next a))
    → length d.board ≡ n
    → (m >>= λ a. done (next a)) ≡ done s
    → BoardFits s
kept m f next d s n same fits h e =
    let (a, e1, r1) = >>=-eq-done m _ e in
    subst BoardFits (done-injective r1) (fits a (ap length (same a e1) ∙ h))

step_distribute_pot-BoardFits :
    (d : GameData) (cache : HandEvalCache) (s : PokerState)
    → step_distribute_pot d cache ≡ done s
    → length d.board ≡ 5
    → BoardFits s
unfolding step_distribute_pot
step_distribute_pot-BoardFits d cache s e h =
    let (pots, e1, r1) = >>=-eq-done (get_num_pots d) _ e in
    let (r, e2, r2) = >>=-eq-done (Showdown.distribute d cache) _ r1 in
    let five : length r.0.board ≡ 5 = ap length (distribute-board d cache r e2) ∙ h in
    elim (Bool-cases (leb 2 pots)) [
      | inl more ↦ subst BoardFits (done-injective (rw more at r2)) five
      | inr last ↦ subst BoardFits (done-injective (rw last at r2)) five
    ]

-- Every step of the game that ends leads from a board that fits its phase to one that fits its own.
pub step-BoardFits :
    (shuffle : List Card → List Card) (s s' : PokerState)
    → step shuffle s ≡ done s'
    → BoardFits s
    → BoardFits s'
unfolding step step_lobby step_seat_players step_flop step_turn step_river Deal.turn Deal.river
step-BoardFits shuffle (PokerState.lobby d l) s' e h =
    subst BoardFits (done-injective e) (ground (arith, h))
step-BoardFits shuffle (PokerState.seat_players d) s' e h =
    subst BoardFits (done-injective e) (ground (arith, h, ap length (seat_players-board d)))
step-BoardFits shuffle (PokerState.move_button d) s' e h =
    kept (Blinds.move_button d) (λ a. a) PokerState.collect_blinds d s' 0 (move_button-board d)
      (λ a k. k) h e
step-BoardFits shuffle (PokerState.collect_blinds d) s' e h =
    kept (Blinds.collect_blinds d) (λ a. a) PokerState.deal d s' 0 (collect_blinds-board d)
      (λ a k. k) h e
step-BoardFits shuffle (PokerState.deal d) s' e h =
    kept (Deal.deal shuffle d) (λ r. r.0) (λ r. PokerState.take_action r.0 r.1) d s' 0
      (deal-board shuffle d) (λ a k. inl k) h e
step-BoardFits shuffle (PokerState.take_action d options) s' e h =
    step_take_action-BoardFits d options s' e h
step-BoardFits shuffle (PokerState.flop d) s' e h =
    street-BoardFits Deal.flop PokerState.turn 3 d s'
      (λ d' e1. omega (arith, length-flop d d' e1, h)) (λ d' k. k) (inr (inl refl)) e
step-BoardFits shuffle (PokerState.turn d) s' e h =
    street-BoardFits Deal.draw PokerState.river 4 d s'
      (λ d' e1. omega (arith, length-draw d d' e1, h)) (λ d' k. k) (inr (inr (inl refl))) e
step-BoardFits shuffle (PokerState.river d) s' e h =
    street-BoardFits Deal.draw (λ d'. PokerState.show_hands d' []) 5 d s'
      (λ d' e1. omega (arith, length-draw d d' e1, h)) (λ d' k. k) (inr (inr (inr refl))) e
step-BoardFits shuffle (PokerState.show_hands d cache) s' e h =
    kept (Showdown.show_hands d) (λ a. a) (λ d'. PokerState.distribute_pot d' cache) d s' 5
      (show_hands-board d) (λ a k. k) h e
step-BoardFits shuffle (PokerState.distribute_pot d cache) s' e h =
    step_distribute_pot-BoardFits d cache s' e h
step-BoardFits shuffle (PokerState.remove_players d) s' e h =
    subst BoardFits (done-injective e) (ap length (remove_players-board d) ∙ h)
step-BoardFits shuffle (PokerState.divide_donations d) s' e h =
    kept (Cleanup.divide_donations d) (λ a. a) PokerState.update_blinds d s' 5
      (divide_donations-board d) (λ a k. k) h e
step-BoardFits shuffle (PokerState.update_blinds d) s' e h =
    kept (Cleanup.update_blinds d) (λ a. a) PokerState.boot_players d s' 5 (update_blinds-board d)
      (λ a k. k) h e
step-BoardFits shuffle (PokerState.boot_players d) s' e h =
    subst BoardFits (done-injective e) (ap length (boot_players-board d))
