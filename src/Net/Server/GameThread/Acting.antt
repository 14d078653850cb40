-- ===== src/Net/Server/GameThread/Acting.antt =====
-- Who may act in the game of private_poker/src/game.rs: the user who has the turn.
use private_poker.Prelude.{
  ◌≡◌, refl, subst, true, Bool-cases, inl, inr, done, >>=-eq-done, done-injective, List, Option,
}
use private_poker.Entities.{Action, Username}
use private_poker.Game.{GameData, Result}
use private_poker.Game.Queries.{is_turn, is_ready_for_next_phase}
use private_poker.Game.Betting.{act}
use private_poker.Game.Phases.{PokerState}
use private_poker.Game.Phases.Requests.{Replied, take_action, may_act, acted}
use private_poker.Net.Server.GameThread.Replies.{Then}

always {ℓ} : {A : Type ℓ} {P : Type 0} (x : PokerState × Result A) → P → Then (λ s'. P) x
always (s, Result.ok a) h = h
always (s, Result.err e) h = tt

-- Whose turn it is in a betting phase.
abbrev pub HasTurn : Username → PokerState → Type 0
HasTurn name s =
    (d : GameData) × (options : Option (List Action)) × (s ≡ PokerState.take_action d options)
    × (is_turn name d ≡ done true)

may_act-is_turn :
    (name : Username) (d : GameData) → may_act name d ≡ done true → is_turn name d ≡ done true
may_act-is_turn name d e = elim (Bool-cases (is_ready_for_next_phase d)) [
  | inl over ↦ cc (rw over at e)
  | inr goes ↦ rw goes at e
]

pub acts :
    (name : Username) (action : Action) (s : PokerState) (x : Replied Action)
    → take_action name action s ≡ done x
    → Then (λ s'. HasTurn name s) x
unfolding take_action
acts name action (PokerState.take_action d options) x e =
    let (allowed, e1, r1) = >>=-eq-done (may_act name d) _ e in
    elim (Bool-cases allowed) [
      | inr refused ↦
          subst (Then (λ s'. HasTurn name (PokerState.take_action d options)))
            (done-injective (rw refused at r1)) tt
      | inl accepted ↦
          let (a, e2, r2) = >>=-eq-done (act action options d) _ (rw accepted at r1) in
          subst (Then (λ s'. HasTurn name (PokerState.take_action d options))) (done-injective r2)
            (always (acted a) (d, options, refl, may_act-is_turn name d (rw accepted at e1)))
    ]
acts name action (PokerState.lobby d l) x e =
    subst (Then (λ s'. HasTurn name (PokerState.lobby d l))) (done-injective e) tt
acts name action (PokerState.seat_players d) x e =
    subst (Then (λ s'. HasTurn name (PokerState.seat_players d))) (done-injective e) tt
acts name action (PokerState.move_button d) x e =
    subst (Then (λ s'. HasTurn name (PokerState.move_button d))) (done-injective e) tt
acts name action (PokerState.collect_blinds d) x e =
    subst (Then (λ s'. HasTurn name (PokerState.collect_blinds d))) (done-injective e) tt
acts name action (PokerState.deal d) x e =
    subst (Then (λ s'. HasTurn name (PokerState.deal d))) (done-injective e) tt
acts name action (PokerState.flop d) x e =
    subst (Then (λ s'. HasTurn name (PokerState.flop d))) (done-injective e) tt
acts name action (PokerState.turn d) x e =
    subst (Then (λ s'. HasTurn name (PokerState.turn d))) (done-injective e) tt
acts name action (PokerState.river d) x e =
    subst (Then (λ s'. HasTurn name (PokerState.river d))) (done-injective e) tt
acts name action (PokerState.show_hands d c) x e =
    subst (Then (λ s'. HasTurn name (PokerState.show_hands d c))) (done-injective e) tt
acts name action (PokerState.distribute_pot d c) x e =
    subst (Then (λ s'. HasTurn name (PokerState.distribute_pot d c))) (done-injective e) tt
acts name action (PokerState.remove_players d) x e =
    subst (Then (λ s'. HasTurn name (PokerState.remove_players d))) (done-injective e) tt
acts name action (PokerState.divide_donations d) x e =
    subst (Then (λ s'. HasTurn name (PokerState.divide_donations d))) (done-injective e) tt
acts name action (PokerState.update_blinds d) x e =
    subst (Then (λ s'. HasTurn name (PokerState.update_blinds d))) (done-injective e) tt
acts name action (PokerState.boot_players d) x e =
    subst (Then (λ s'. HasTurn name (PokerState.boot_players d))) (done-injective e) tt
