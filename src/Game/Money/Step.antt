-- ===== src/Game/Money/Step.antt =====
-- Every step of the game, and every request of a user, keeps the money balanced.
use private_poker.Prelude.{
  ℕ, ◌≡◌, ◌<◌, refl, List, Option, arith, [], ◌>>=◌, u32_mod, leb, Outcome, done, >>=-eq-done,
  done-injective, subst, Bool-cases, inl, inr, if◌then◌else◌,
}
use private_poker.Entities.{Card, Action}
use private_poker.Game.{GameData, Result, ok, err}
use private_poker.Game.Queries.{
  get_num_users, get_num_pots, is_ready_for_next_phase, is_ready_for_showdown,
  prepare_for_next_phase, get_num_community_cards,
}
use private_poker.Game.Blinds
use private_poker.Game.Deal
use private_poker.Game.Betting.{act, Acted}
use private_poker.Game.Showdown
use private_poker.Game.Showdown.{HandEvalCache}
use private_poker.Game.Cleanup
use private_poker.Game.Phases.{PokerState, game_data}
use private_poker.Game.Phases.Step.{
  next_street, phase_transition, after_fold, start_betting, step_lobby, step_seat_players,
  step_take_action, step_flop, step_turn, step_river, step_distribute_pot, step,
}
use private_poker.Game.Census.{census, IsCensus}
use private_poker.Game.Money.{IsBalanced, IsSmall, cash, invested}
use private_poker.Game.Money.Hand.{
  Carries, Carries-IsBalanced, trans-Carries, refl-Carries, collect_blinds-Carries,
}
use private_poker.Game.Money.Actions.{act-Carries}
use private_poker.Game.Money.Deal.{
  prepare_for_next_phase-Carries, deal-Carries, draw-Carries, flop-Carries, show_hands-Carries,
  move_button-Carries, update_blinds-Carries,
}
use private_poker.Game.Money.Seats.{seat_players-IsBalanced, boot_players-IsBalanced}
use private_poker.Game.Money.Showdown.{distribute-IsBalanced}
use private_poker.Game.Money.Cleanup.{remove_players-IsBalanced, divide_donations-IsBalanced}

-- The next street keeps the data.
next_street-keeps :
    (n : ℕ) (d : GameData) (s : PokerState) → next_street n d ≡ done s → game_data s ≡ d
next_street-keeps n d s e = ground arith

phase_transition-Carries :
    (d : GameData) (s : PokerState) → phase_transition d ≡ done s → Carries d (game_data s)
unfolding phase_transition
phase_transition-Carries d s e =
    rw (next_street-keeps (get_num_community_cards d) d s e) (refl-Carries d)

start_betting-Carries :
    (d : GameData) (s : PokerState) → start_betting d ≡ done s → Carries d (game_data s)
unfolding start_betting
start_betting-Carries d s e =
    let (r, e1, r1) = >>=-eq-done (prepare_for_next_phase d) _ e in
    subst (λ x. Carries d (game_data x)) (done-injective r1) (prepare_for_next_phase-Carries d r e1)

after_fold-Carries :
    (r : Result Action) (a : Acted) (s : PokerState)
    → after_fold r a ≡ done s
    → Carries a.game_data (game_data s)
after_fold-Carries (err x) a s e = cc
after_fold-Carries (ok x) a s e = elim (Bool-cases (is_ready_for_next_phase a.game_data)) [
  | inl over ↦ phase_transition-Carries a.game_data s (rw over at e)
  | inr goes_on ↦
      subst (λ x. Carries a.game_data (game_data x)) (done-injective (rw goes_on at e))
        (refl-Carries a.game_data)
]

step_take_action-Carries :
    (d : GameData) (options : Option (List Action)) (s : PokerState)
    → step_take_action d options ≡ done s
    → cash d < u32_mod
    → Carries d (game_data s)
unfolding step_take_action
step_take_action-Carries d options s e small = elim (Bool-cases (is_ready_for_next_phase d)) [
  | inl over ↦ phase_transition-Carries d s (rw over at e)
  | inr goes_on ↦
      let (a, e1, r1) = >>=-eq-done (act Action.fold options d) _ (rw goes_on at e) in
      trans-Carries d a.game_data (game_data s) (act-Carries Action.fold options d a e1 small)
        (after_fold-Carries a.result a s r1)
]

-- A street's cards are dealt, and then a round of betting starts or the next street follows.
street-Carries :
    (deal : GameData → Outcome GameData) (next : GameData → PokerState) (d : GameData)
    (s : PokerState)
    → ((d' : GameData) → deal d ≡ done d' → Carries d d')
    → ((d' : GameData) → game_data (next d') ≡ d')
    → (deal d >>= λ d'. if is_ready_for_showdown d then done (next d') else start_betting d')
      ≡ done s
    → Carries d (game_data s)
street-Carries deal next d s deals keeps e =
    let (d1, e1, r1) = >>=-eq-done (deal d) _ e in
    elim (Bool-cases (is_ready_for_showdown d)) [
      | inl ready ↦
          subst (λ x. Carries d (game_data x)) (done-injective (rw ready at r1))
            (rw (keeps d1) (deals d1 e1))
      | inr not_ready ↦
          trans-Carries d d1 (game_data s) (deals d1 e1)
            (start_betting-Carries d1 s (rw not_ready at r1))
    ]

-- A step that carries the money on, through one transition.
carried :
    {A : Type 0} (m : Outcome A) (f : A → GameData) (next : A → PokerState) (d : GameData)
    (s : PokerState)
    → ((a : A) → m ≡ done a → IsBalanced (f a))
    → ((a : A) → game_data (next a) ≡ f a)
    → (m >>= λ a. done (next a)) ≡ done s
    → IsBalanced (game_data s)
carried m f next d s balanced keeps e =
    let (a, e1, r1) = >>=-eq-done m _ e in
    subst (λ x. IsBalanced (game_data x)) (done-injective r1) (rw (keeps a) (balanced a e1))

step_distribute_pot-IsBalanced :
    (d : GameData) (cache : HandEvalCache) (s : PokerState)
    → step_distribute_pot d cache ≡ done s
    → IsSmall d
    → IsBalanced d
    → IsBalanced (game_data s)
unfolding step_distribute_pot census get_num_users
step_distribute_pot-IsBalanced d cache s e small balanced =
    let (pots, e1, r1) = >>=-eq-done (get_num_pots d) _ e in
    let (r, e2, r2) = >>=-eq-done (Showdown.distribute d cache) _ r1 in
    let paid = distribute-IsBalanced d cache r e2 small balanced in
    elim (Bool-cases (leb 2 pots)) [
      | inl more ↦ subst (λ x. IsBalanced (game_data x)) (done-injective (rw more at r2)) paid
      | inr last ↦ subst (λ x. IsBalanced (game_data x)) (done-injective (rw last at r2)) paid
    ]

-- Every step of the game that ends keeps the money balanced: the stacks, the pot and the donations
-- together are the buy-in for each user present. The conditions: no user stands in two places, the
-- money and the buy-ins present are amounts for which an f32 is exact, and the pot is empty when
-- the blinds are about to be collected.
pub step-IsBalanced :
    (shuffle : List Card → List Card) (s s' : PokerState)
    → step shuffle s ≡ done s'
    → IsCensus (game_data s)
    → IsSmall (game_data s)
    → IsBalanced (game_data s)
    → ((d : GameData) → s ≡ PokerState.collect_blinds d → invested d.pot.investments ≡ 0)
    → IsBalanced (game_data s')
unfolding step step_lobby step_seat_players step_flop step_turn step_river Deal.turn Deal.river
step-IsBalanced shuffle (PokerState.lobby d l) s' e c small b paid =
    subst (λ x. IsBalanced (game_data x)) (done-injective e) (ground (arith, b))
step-IsBalanced shuffle (PokerState.seat_players d) s' e c small b paid =
    subst (λ x. IsBalanced (game_data x)) (done-injective e)
      (ground (arith, b, seat_players-IsBalanced d c b))
step-IsBalanced shuffle (PokerState.move_button d) s' e c small b paid =
    carried (Blinds.move_button d) (λ a. a) PokerState.collect_blinds d s'
      (λ a e1. Carries-IsBalanced d a (move_button-Carries d a e1) b) (λ a. refl) e
step-IsBalanced shuffle (PokerState.collect_blinds d) s' e c small b paid =
    carried (Blinds.collect_blinds d) (λ a. a) PokerState.deal d s'
      (λ a e1.
        Carries-IsBalanced d a
          (collect_blinds-Carries d a e1 (omega (arith, small.cash_small)) (paid d refl)) b)
      (λ a. refl) e
step-IsBalanced shuffle (PokerState.deal d) s' e c small b paid =
    carried (Deal.deal shuffle d) (λ r. r.0) (λ r. PokerState.take_action r.0 r.1) d s'
      (λ r e1. Carries-IsBalanced d r.0 (deal-Carries shuffle d r e1) b) (λ r. refl) e
step-IsBalanced shuffle (PokerState.take_action d options) s' e c small b paid =
    Carries-IsBalanced d (game_data s')
      (step_take_action-Carries d options s' e (omega (arith, small.cash_small))) b
step-IsBalanced shuffle (PokerState.flop d) s' e c small b paid =
    Carries-IsBalanced d (game_data s')
      (street-Carries Deal.flop PokerState.turn d s' (flop-Carries d) (λ d'. refl) e) b
step-IsBalanced shuffle (PokerState.turn d) s' e c small b paid =
    Carries-IsBalanced d (game_data s')
      (street-Carries Deal.turn PokerState.river d s' (draw-Carries d) (λ d'. refl) e) b
step-IsBalanced shuffle (PokerState.river d) s' e c small b paid =
    Carries-IsBalanced d (game_data s')
      (street-Carries Deal.river (λ d'. PokerState.show_hands d' []) d s' (draw-Carries d)
        (λ d'. refl) e)
      b
step-IsBalanced shuffle (PokerState.show_hands d cache) s' e c small b paid =
    carried (Showdown.show_hands d) (λ a. a) (λ d'. PokerState.distribute_pot d' cache) d s'
      (λ a e1. Carries-IsBalanced d a (show_hands-Carries d a e1) b) (λ a. refl) e
step-IsBalanced shuffle (PokerState.distribute_pot d cache) s' e c small b paid =
    step_distribute_pot-IsBalanced d cache s' e small b
step-IsBalanced shuffle (PokerState.remove_players d) s' e c small b paid =
    subst (λ x. IsBalanced (game_data x)) (done-injective e) (remove_players-IsBalanced d small b)
step-IsBalanced shuffle (PokerState.divide_donations d) s' e c small b paid =
    carried (Cleanup.divide_donations d) (λ a. a) PokerState.update_blinds d s'
      (λ a e1. divide_donations-IsBalanced d a e1 small b) (λ a. refl) e
step-IsBalanced shuffle (PokerState.update_blinds d) s' e c small b paid =
    carried (Cleanup.update_blinds d) (λ a. a) PokerState.boot_players d s'
      (λ a e1. Carries-IsBalanced d a (update_blinds-Carries d a e1) b) (λ a. refl) e
step-IsBalanced shuffle (PokerState.boot_players d) s' e c small b paid =
    subst (λ x. IsBalanced (game_data x)) (done-injective e) (boot_players-IsBalanced d b)
