-- ===== src/Game/Census/Reach.antt =====
-- Every request and every action keeps the census well-formed, and so do all moves of a game in
-- private_poker/src/game.rs, in any order.
use private_poker.Prelude.{
  ◌≡◌, refl, sym, subst, List, Option, done, arith, >>=-eq-done, done-injective, Bool-cases, inl,
  inr,
}
use private_poker.Entities.{Action, Username}
use private_poker.Game.{GameData, GameSettings, game_data_of}
use private_poker.Game.Betting
use private_poker.Game.Betting.{act}
use private_poker.Game.Phases.{PokerState, game_data, of_settings}
use private_poker.Game.Phases.Requests.{
  Replied, with_data, is_queued, new_user, waitlist_user, remove_user, spectate_user, init_start,
  show_hand, take_action, may_act,
}
use private_poker.Game.Phases.Reach.{Request, request, Move, steps, asks, acts, Reach, here, next}
use private_poker.Game.Census.{census, IsCensus}
use private_poker.Game.Census.Invariant.{
  new_user-IsCensus, waitlist_user-IsCensus, remove_user-IsCensus, queue_remove_user-IsCensus,
  spectate_user-IsCensus, queue_spectate_user-IsCensus,
}
use private_poker.Game.Census.Places.{SamePlaces, SamePlaces-IsCensus, refl-SamePlaces}
use private_poker.Game.Census.Table.{act-SamePlaces}
use private_poker.Game.Census.Showdown.{show_hand-SamePlaces}
use private_poker.Game.Census.Step.{step-IsCensus}

pub game_data-with_data : (s : PokerState) (d : GameData) → game_data (with_data s d) ≡ d
game_data-with_data (PokerState.lobby _ _) d = refl
game_data-with_data (PokerState.seat_players _) d = refl
game_data-with_data (PokerState.move_button _) d = refl
game_data-with_data (PokerState.collect_blinds _) d = refl
game_data-with_data (PokerState.deal _) d = refl
game_data-with_data (PokerState.take_action _ _) d = refl
game_data-with_data (PokerState.flop _) d = refl
game_data-with_data (PokerState.turn _) d = refl
game_data-with_data (PokerState.river _) d = refl
game_data-with_data (PokerState.show_hands _ _) d = refl
game_data-with_data (PokerState.distribute_pot _ _) d = refl
game_data-with_data (PokerState.remove_players _) d = refl
game_data-with_data (PokerState.divide_donations _) d = refl
game_data-with_data (PokerState.update_blinds _) d = refl
game_data-with_data (PokerState.boot_players _) d = refl

with_data-IsCensus :
    (s : PokerState) (d : GameData) → IsCensus d → IsCensus (game_data (with_data s d))
with_data-IsCensus s d c = subst IsCensus (sym (game_data-with_data s d)) c

-- The start of a game changes the lobby alone.
pub game_data-init_start :
    (name : Username) (s : PokerState) → game_data (init_start name s).0 ≡ game_data s
unfolding init_start
game_data-init_start name (PokerState.lobby d l) = ground arith
game_data-init_start name (PokerState.seat_players d) = refl
game_data-init_start name (PokerState.move_button d) = refl
game_data-init_start name (PokerState.collect_blinds d) = refl
game_data-init_start name (PokerState.deal d) = refl
game_data-init_start name (PokerState.take_action d _) = refl
game_data-init_start name (PokerState.flop d) = refl
game_data-init_start name (PokerState.turn d) = refl
game_data-init_start name (PokerState.river d) = refl
game_data-init_start name (PokerState.show_hands d _) = refl
game_data-init_start name (PokerState.distribute_pot d _) = refl
game_data-init_start name (PokerState.remove_players d) = refl
game_data-init_start name (PokerState.divide_donations d) = refl
game_data-init_start name (PokerState.update_blinds d) = refl
game_data-init_start name (PokerState.boot_players d) = refl

show_hand-places :
    (name : Username) (s : PokerState) → SamePlaces (game_data s) (game_data (show_hand name s).0)
unfolding show_hand
show_hand-places name (PokerState.lobby d l) = refl-SamePlaces d
show_hand-places name (PokerState.seat_players d) = refl-SamePlaces d
show_hand-places name (PokerState.move_button d) = refl-SamePlaces d
show_hand-places name (PokerState.collect_blinds d) = refl-SamePlaces d
show_hand-places name (PokerState.deal d) = refl-SamePlaces d
show_hand-places name (PokerState.take_action d _) = refl-SamePlaces d
show_hand-places name (PokerState.flop d) = refl-SamePlaces d
show_hand-places name (PokerState.turn d) = refl-SamePlaces d
show_hand-places name (PokerState.river d) = refl-SamePlaces d
show_hand-places name (PokerState.show_hands d c) = show_hand-SamePlaces name d
show_hand-places name (PokerState.distribute_pot d c) = show_hand-SamePlaces name d
show_hand-places name (PokerState.remove_players d) = show_hand-SamePlaces name d
show_hand-places name (PokerState.divide_donations d) = refl-SamePlaces d
show_hand-places name (PokerState.update_blinds d) = show_hand-SamePlaces name d
show_hand-places name (PokerState.boot_players d) = refl-SamePlaces d

module _ (name : Username) (s : PokerState) (c : IsCensus (game_data s)) where
  joins-IsCensus : IsCensus (game_data (new_user name s).0)
  unfolding new_user
  joins-IsCensus = with_data-IsCensus s _ (new_user-IsCensus name (game_data s) c)

  waits-IsCensus : IsCensus (game_data (waitlist_user name s).0)
  unfolding waitlist_user
  waits-IsCensus = with_data-IsCensus s _ (waitlist_user-IsCensus name (game_data s) c)

  leaves-IsCensus : IsCensus (game_data (remove_user name s).0)
  unfolding remove_user
  leaves-IsCensus = elim (Bool-cases (is_queued s)) [
    | inl queued ↦
        rw queued (with_data-IsCensus s _ (queue_remove_user-IsCensus name (game_data s) c))
    | inr at_once ↦ rw at_once (with_data-IsCensus s _ (remove_user-IsCensus name (game_data s) c))
  ]

  watches-IsCensus : IsCensus (game_data (spectate_user name s).0)
  unfolding spectate_user
  watches-IsCensus = elim (Bool-cases (is_queued s)) [
    | inl queued ↦
        rw queued (with_data-IsCensus s _ (queue_spectate_user-IsCensus name (game_data s) c))
    | inr at_once ↦
        rw at_once (with_data-IsCensus s _ (spectate_user-IsCensus name (game_data s) c))
  ]

  pub request-IsCensus : (r : Request) → IsCensus (game_data (request r name s))
  request-IsCensus Request.join = joins-IsCensus
  request-IsCensus Request.wait = waits-IsCensus
  request-IsCensus Request.leave = leaves-IsCensus
  request-IsCensus Request.watch = watches-IsCensus
  request-IsCensus Request.start = subst IsCensus (sym (game_data-init_start name s)) c
  request-IsCensus Request.show =
      SamePlaces-IsCensus (game_data s) (game_data (show_hand name s).0) (show_hand-places name s) c

-- An action that is not allowed, or another phase, keeps the state; the others are `act`.
pub take_action-cases :
    (name : Username) (action : Action) (s : PokerState) (r : Replied Action)
    → take_action name action s ≡ done r
    → (P : GameData → Type 0) → P (game_data s)
    → ((d : GameData) (options : Option (List Action)) (a : Betting.Acted)
        → d ≡ game_data s
        → act action options d ≡ done a
        → P a.game_data)
    → P (game_data r.0)
unfolding take_action
take_action-cases name action (PokerState.take_action d options) r e P stays acts_on =
    let (allowed, e1, r1) = >>=-eq-done (may_act name d) _ e in
    elim (Bool-cases allowed) [
      | inr refused ↦ subst (λ x. P (game_data x.0)) (done-injective (rw refused at r1)) stays
      | inl accepted ↦
          let (a, e2, r2) = >>=-eq-done (act action options d) _ (rw accepted at r1) in
          subst (λ x. P (game_data x.0)) (done-injective r2) (acts_on d options a refl e2)
    ]
take_action-cases name action (PokerState.lobby d l) r e P stays acts_on =
    subst (λ x. P (game_data x.0)) (done-injective e) stays
take_action-cases name action (PokerState.seat_players d) r e P stays acts_on =
    subst (λ x. P (game_data x.0)) (done-injective e) stays
take_action-cases name action (PokerState.move_button d) r e P stays acts_on =
    subst (λ x. P (game_data x.0)) (done-injective e) stays
take_action-cases name action (PokerState.collect_blinds d) r e P stays acts_on =
    subst (λ x. P (game_data x.0)) (done-injective e) stays
take_action-cases name action (PokerState.deal d) r e P stays acts_on =
    subst (λ x. P (game_data x.0)) (done-injective e) stays
take_action-cases name action (PokerState.flop d) r e P stays acts_on =
    subst (λ x. P (game_data x.0)) (done-injective e) stays
take_action-cases name action (PokerState.turn d) r e P stays acts_on =
    subst (λ x. P (game_data x.0)) (done-injective e) stays
take_action-cases name action (PokerState.river d) r e P stays acts_on =
    subst (λ x. P (game_data x.0)) (done-injective e) stays
take_action-cases name action (PokerState.show_hands d _) r e P stays acts_on =
    subst (λ x. P (game_data x.0)) (done-injective e) stays
take_action-cases name action (PokerState.distribute_pot d _) r e P stays acts_on =
    subst (λ x. P (game_data x.0)) (done-injective e) stays
take_action-cases name action (PokerState.remove_players d) r e P stays acts_on =
    subst (λ x. P (game_data x.0)) (done-injective e) stays
take_action-cases name action (PokerState.divide_donations d) r e P stays acts_on =
    subst (λ x. P (game_data x.0)) (done-injective e) stays
take_action-cases name action (PokerState.update_blinds d) r e P stays acts_on =
    subst (λ x. P (game_data x.0)) (done-injective e) stays
take_action-cases name action (PokerState.boot_players d) r e P stays acts_on =
    subst (λ x. P (game_data x.0)) (done-injective e) stays

pub Move-IsCensus : {s t : PokerState} → Move s t → IsCensus (game_data s) → IsCensus (game_data t)
Move-IsCensus (steps shuffle e) c = step-IsCensus shuffle _ _ e c
Move-IsCensus (asks r name) c = request-IsCensus name _ c r
Move-IsCensus (acts name action r e) c =
    take_action-cases name action _ r e IsCensus c (λ d options a same done_act.
      SamePlaces-IsCensus d a.game_data (act-SamePlaces action options d a done_act)
        (subst IsCensus (sym same) c))

-- In every state that steps, requests and actions lead to from a new game, in any order, nobody
-- stands in two places among the spectators, the waitlist and the players, and the spectators are
-- a map by their own names.
pub Reach-IsCensus :
    (settings : GameSettings) {s : PokerState}
    → Reach (of_settings settings) s
    → IsCensus (game_data s)
unfolding of_settings census game_data_of
Reach-IsCensus settings here = record { is_map = tt; is_keyed = tt; once = λ k. omega arith }
Reach-IsCensus settings (next r m) = Move-IsCensus m (Reach-IsCensus settings r)
