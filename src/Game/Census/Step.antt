-- ===== src/Game/Census/Step.antt =====
-- Every step of the game in private_poker/src/game.rs: who is in the game, and where.
use private_poker.Prelude.{
  ℕ, ◌≡◌, refl, subst, sym, List, [], arith, leb, Option, Outcome, done, ◌>>=◌, >>=-eq-done,
  done-injective, Bool-cases, inl, inr, if◌then◌else◌,
}
use private_poker.Entities.{Card, Action}
use private_poker.Game.{GameData, Result, ok, err}
use private_poker.Game.Queries.{
  get_num_pots, is_ready_for_next_phase, is_ready_for_showdown, prepare_for_next_phase,
  get_num_potential_players,
}
use private_poker.Game.Blinds
use private_poker.Game.Deal
use private_poker.Game.Lobby
use private_poker.Game.Betting.{act, Acted}
use private_poker.Game.Showdown
use private_poker.Game.Showdown.{HandEvalCache, checked_div}
use private_poker.Game.Cleanup
use private_poker.Game.Cleanup.{give, give_entry, give_player, take_donations, divide_donations}
use private_poker.Game.Phases.{PokerState, game_data}
use private_poker.Game.Phases.Step.{
  next_street, phase_transition, after_fold, start_betting, step_lobby, step_seat_players,
  step_take_action, step_flop, step_turn, step_river, step_distribute_pot, step,
}
use private_poker.Game.Census.{IsCensus}
use private_poker.Game.Census.Phases.{
  seat_players-IsCensus, remove_players-IsCensus, boot_players-IsCensus,
}
use private_poker.Game.Census.Places.{
  SamePlaces, SamePlaces-IsCensus, players-SamePlaces, move_button-SamePlaces,
  collect_blinds-SamePlaces, deal-SamePlaces, draw-SamePlaces, flop-SamePlaces,
  prepare_for_next_phase-SamePlaces,
}
use private_poker.Game.Census.Table.{act-SamePlaces}
use private_poker.Game.Census.Showdown.{
  show_hands-SamePlaces, distribute-SamePlaces, update_blinds-SamePlaces,
}
use private_poker.Game.Census.Gifts.{divide_donations-IsCensus}

-- The next street keeps the data.
next_street-same_data :
    (n : ℕ) (d : GameData) (s : PokerState) → next_street n d ≡ done s → game_data s ≡ d
next_street-same_data n d s e = ground arith

phase_transition-IsCensus :
    (d : GameData) (s : PokerState)
    → phase_transition d ≡ done s
    → IsCensus d
    → IsCensus (game_data s)
unfolding phase_transition
phase_transition-IsCensus d s e c = subst IsCensus (sym (next_street-same_data _ d s e)) c

start_betting-IsCensus :
    (d : GameData) (s : PokerState) → start_betting d ≡ done s → IsCensus d → IsCensus (game_data s)
unfolding start_betting
start_betting-IsCensus d s e c =
    let (r, e1, r1) = >>=-eq-done (prepare_for_next_phase d) _ e in
    subst (λ x. IsCensus (game_data x)) (done-injective r1)
      (SamePlaces-IsCensus d r.0 (prepare_for_next_phase-SamePlaces d r e1) c)

after_fold-IsCensus :
    (r : Result Action) (a : Acted) (s : PokerState)
    → after_fold r a ≡ done s
    → IsCensus a.game_data
    → IsCensus (game_data s)
after_fold-IsCensus (err x) a s e c = cc
after_fold-IsCensus (ok x) a s e c = elim (Bool-cases (is_ready_for_next_phase a.game_data)) [
  | inl over ↦ phase_transition-IsCensus a.game_data s (rw over at e) c
  | inr goes_on ↦ subst (λ x. IsCensus (game_data x)) (done-injective (rw goes_on at e)) c
]

step_take_action-IsCensus :
    (d : GameData) (options : Option (List Action)) (s : PokerState)
    → step_take_action d options ≡ done s
    → IsCensus d
    → IsCensus (game_data s)
unfolding step_take_action
step_take_action-IsCensus d options s e c = elim (Bool-cases (is_ready_for_next_phase d)) [
  | inl over ↦ phase_transition-IsCensus d s (rw over at e) c
  | inr goes_on ↦
      let (a, e1, r1) = >>=-eq-done (act Action.fold options d) _ (rw goes_on at e) in
      after_fold-IsCensus a.result a s r1
        (SamePlaces-IsCensus d a.game_data (act-SamePlaces Action.fold options d a e1) c)
]

street-IsCensus :
    (deal : GameData → Outcome GameData) (next : GameData → PokerState) (d : GameData)
    (s : PokerState)
    → ((d' : GameData) → deal d ≡ done d' → SamePlaces d d')
    → ((d' : GameData) → game_data (next d') ≡ d')
    → (deal d >>= λ d'. if is_ready_for_showdown d then done (next d') else start_betting d')
      ≡ done s
    → IsCensus d
    → IsCensus (game_data s)
street-IsCensus deal next d s same keeps e c =
    let (d1, e1, r1) = >>=-eq-done (deal d) _ e in
    let c1 = SamePlaces-IsCensus d d1 (same d1 e1) c in
    elim (Bool-cases (is_ready_for_showdown d)) [
      | inl ready ↦
          let r2 : done (next d1) ≡ done s = rw ready at r1 in
          subst (λ x. IsCensus (game_data x)) (done-injective r2)
            (subst IsCensus (sym (keeps d1)) c1)
      | inr not_ready ↦
          let r2 : start_betting d1 ≡ done s = rw not_ready at r1 in
          start_betting-IsCensus d1 s r2 c1
    ]

step_distribute_pot-IsCensus :
    (d : GameData) (cache : HandEvalCache) (s : PokerState)
    → step_distribute_pot d cache ≡ done s
    → IsCensus d
    → IsCensus (game_data s)
unfolding step_distribute_pot
step_distribute_pot-IsCensus d cache s e c =
    let (pots, e1, r1) = >>=-eq-done (get_num_pots d) _ e in
    let (r, e2, r2) = >>=-eq-done (Showdown.distribute d cache) _ r1 in
    let p = distribute-SamePlaces d cache r e2 in
    elim (Bool-cases (leb 2 pots)) [
      | inl more ↦
          subst (λ x. IsCensus (game_data x)) (done-injective (rw more at r2))
            (SamePlaces-IsCensus d r.0 p c)
      | inr last ↦
          subst (λ x. IsCensus (game_data x)) (done-injective (rw last at r2))
            (SamePlaces-IsCensus d (record (r.0) { num_players_active = 0 })
              (players-SamePlaces d _ p.same_spectators p.same_waitlist p.same_names) c)
    ]

-- A step through one transition.
through :
    {A : Type 0} (m : Outcome A) (f : A → GameData) (next : A → PokerState) (s : PokerState)
    → ((a : A) → m ≡ done a → IsCensus (f a))
    → ((a : A) → game_data (next a) ≡ f a)
    → (m >>= λ a. done (next a)) ≡ done s
    → IsCensus (game_data s)
through m f next s good keeps e =
    let (a, e1, r1) = >>=-eq-done m _ e in
    subst (λ x. IsCensus (game_data x)) (done-injective r1)
      (subst IsCensus (sym (keeps a)) (good a e1))

step_seat_players-IsCensus :
    (d : GameData) → IsCensus d → IsCensus (game_data (step_seat_players d))
unfolding step_seat_players
step_seat_players-IsCensus d c = elim (Bool-cases (leb 2 (get_num_potential_players d))) [
  | inl enough ↦ rw enough (seat_players-IsCensus d c)
  | inr too_few ↦ rw too_few c
]

step_lobby-IsCensus :
    (d : GameData) (l : Lobby.Lobby) → IsCensus d → IsCensus (game_data (step_lobby d l))
unfolding step_lobby
step_lobby-IsCensus d l c = elim (Bool-cases (Lobby.is_ready_to_start d l)) [
  | inl ready ↦ rw ready c
  | inr waits ↦ rw waits c
]

-- Every step of the game that ends keeps the census well-formed.
pub step-IsCensus :
    (shuffle : List Card → List Card) (s s' : PokerState)
    → step shuffle s ≡ done s'
    → IsCensus (game_data s)
    → IsCensus (game_data s')
unfolding step step_flop step_turn step_river Deal.turn Deal.river
step-IsCensus shuffle (PokerState.lobby d l) s' e c =
    subst (λ x. IsCensus (game_data x)) (done-injective e) (step_lobby-IsCensus d l c)
step-IsCensus shuffle (PokerState.seat_players d) s' e c =
    subst (λ x. IsCensus (game_data x)) (done-injective e) (step_seat_players-IsCensus d c)
step-IsCensus shuffle (PokerState.move_button d) s' e c =
    through (Blinds.move_button d) (λ a. a) PokerState.collect_blinds s'
      (λ a e1. SamePlaces-IsCensus d a (move_button-SamePlaces d a e1) c) (λ a. refl) e
step-IsCensus shuffle (PokerState.collect_blinds d) s' e c =
    through (Blinds.collect_blinds d) (λ a. a) PokerState.deal s'
      (λ a e1. SamePlaces-IsCensus d a (collect_blinds-SamePlaces d a e1) c) (λ a. refl) e
step-IsCensus shuffle (PokerState.deal d) s' e c =
    through (Deal.deal shuffle d) (λ r. r.0) (λ r. PokerState.take_action r.0 r.1) s'
      (λ r e1. SamePlaces-IsCensus d r.0 (deal-SamePlaces shuffle d r e1) c) (λ a. refl) e
step-IsCensus shuffle (PokerState.take_action d options) s' e c =
    step_take_action-IsCensus d options s' e c
step-IsCensus shuffle (PokerState.flop d) s' e c =
    street-IsCensus Deal.flop PokerState.turn d s' (flop-SamePlaces d) (λ d'. refl) e c
step-IsCensus shuffle (PokerState.turn d) s' e c =
    street-IsCensus Deal.draw PokerState.river d s' (draw-SamePlaces d) (λ d'. refl) e c
step-IsCensus shuffle (PokerState.river d) s' e c =
    street-IsCensus Deal.draw (λ d'. PokerState.show_hands d' []) d s' (draw-SamePlaces d)
      (λ d'. refl) e c
step-IsCensus shuffle (PokerState.show_hands d cache) s' e c =
    through (Showdown.show_hands d) (λ a. a) (λ d'. PokerState.distribute_pot d' cache) s'
      (λ a e1. SamePlaces-IsCensus d a (show_hands-SamePlaces d a e1) c) (λ a. refl) e
step-IsCensus shuffle (PokerState.distribute_pot d cache) s' e c =
    step_distribute_pot-IsCensus d cache s' e c
step-IsCensus shuffle (PokerState.remove_players d) s' e c =
    subst (λ x. IsCensus (game_data x)) (done-injective e) (remove_players-IsCensus d c)
step-IsCensus shuffle (PokerState.divide_donations d) s' e c =
    through (divide_donations d) (λ a. a) PokerState.update_blinds s'
      (λ a e1. divide_donations-IsCensus d a e1 c) (λ a. refl) e
step-IsCensus shuffle (PokerState.update_blinds d) s' e c =
    through (Cleanup.update_blinds d) (λ a. a) PokerState.boot_players s'
      (λ a e1. SamePlaces-IsCensus d a (update_blinds-SamePlaces d a e1) c) (λ a. refl) e
step-IsCensus shuffle (PokerState.boot_players d) s' e c =
    subst (λ x. IsCensus (game_data x)) (done-injective e) (boot_players-IsCensus d c)
