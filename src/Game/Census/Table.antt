-- ===== src/Game/Census/Table.antt =====
-- The actions in private_poker/src/game.rs: nobody changes places.
use private_poker.Prelude.{
  ℕ, ◌≡◌, refl, ◌∙◌, subst, false, List, Option, some, none, get_elem?, leb, done, expect,
  expect-eq-done, >>=-eq-done, done-injective, Bool-cases, inl, inr, sub_u32,
}
use private_poker.Entities.{Bet, Action, PlayerState}
use private_poker.Entities.Player.{Player}
use private_poker.Game.{GameData, Result, ok, err}
use private_poker.Game.Queries.{get_next_action_idx, get_next_action_options}
use private_poker.Game.Betting.{
  affect_at, affect_player, finish_act, act, Acted, place_bet, settle_bet, apply_counted, Counted,
  is_option, with_state,
}
use private_poker.Game.Blinds.{with_money}
use private_poker.Game.Census.Places.{
  SamePlaces, refl-SamePlaces, trans-SamePlaces, players-SamePlaces, names-set, names-reset_others,
}

settle_bet-SamePlaces :
    (i : ℕ) (p : Player) (b : Bet) (c : Counted) (d : GameData)
    → get_elem? d.players i ≡ some p
    → SamePlaces d (settle_bet i p b c d)
unfolding settle_bet
settle_bet-SamePlaces i p b c d found =
    let q = with_money p c.state (sub_u32 p.user.money b.amount) in
    let paid = names-set d.players i p q found refl in
    elim (Bool-cases (leb c.called 1)) [
      | inl again ↦ players-SamePlaces d _ refl refl (rw again (names-reset_others i _ ∙ paid))
      | inr as_before ↦ players-SamePlaces d _ refl refl (rw as_before paid)
    ]

apply_counted-SamePlaces :
    (i : ℕ) (p : Player) (b : Bet) (d : GameData) (r : Result Counted)
    → get_elem? d.players i ≡ some p
    → SamePlaces d (apply_counted i p b d r).0
apply_counted-SamePlaces i p b d (ok c) found = settle_bet-SamePlaces i p b c d found
apply_counted-SamePlaces i p b d (err x) found = refl-SamePlaces d

place_bet-SamePlaces :
    (i : ℕ) (p : Player) (b : Bet) (d : GameData)
    → get_elem? d.players i ≡ some p
    → SamePlaces d (place_bet i p b d).0
unfolding place_bet
place_bet-SamePlaces i p b d found = apply_counted-SamePlaces i p _ d _ found

affect_player-SamePlaces :
    (i : ℕ) (p : Player) (a : Action) (d : GameData)
    → get_elem? d.players i ≡ some p
    → SamePlaces d (affect_player i p a d).0
affect_player-SamePlaces i p Action.all_in d found = place_bet-SamePlaces i p _ d found
affect_player-SamePlaces i p (Action.call amount) d found = place_bet-SamePlaces i p _ d found
affect_player-SamePlaces i p Action.check d found =
    players-SamePlaces d _ refl refl
      (names-set d.players i p (with_state p PlayerState.check) found refl)
affect_player-SamePlaces i p Action.fold d found =
    players-SamePlaces d _ refl refl
      (names-set d.players i p (with_state p PlayerState.fold) found refl)
affect_player-SamePlaces i p (Action.raise amount) d found = place_bet-SamePlaces i p _ d found

affect_at-SamePlaces :
    (next : Option ℕ) (options : Option (List Action)) (a : Action) (d : GameData)
    (r : GameData × Result Action)
    → affect_at next options a d ≡ done r
    → SamePlaces d r.0
unfolding affect_at
affect_at-SamePlaces none options a d r e =
    subst (λ x. SamePlaces d x.0) (done-injective e) (refl-SamePlaces d)
affect_at-SamePlaces (some i) none a d r e =
    subst (λ x. SamePlaces d x.0) (done-injective e) (refl-SamePlaces d)
affect_at-SamePlaces (some i) (some options) a d r e = elim (Bool-cases (is_option a options)) [
  | inr refused ↦
      subst (λ x. SamePlaces d x.0) (done-injective (rw refused at e)) (refl-SamePlaces d)
  | inl allowed ↦
      let (p, found, r') = >>=-eq-done (expect (get_elem? d.players i)) _ (rw allowed at e) in
      subst (λ x. SamePlaces d x.0) (done-injective r')
        (affect_player-SamePlaces i p a d (expect-eq-done (get_elem? d.players i) p found))
]

finish_act-SamePlaces :
    (options : Option (List Action)) (d : GameData) (r : Result Action) (a : Acted)
    → finish_act options d r ≡ done a
    → SamePlaces d a.game_data
finish_act-SamePlaces options d (err x) a e =
    subst (λ y. SamePlaces d y.game_data) (done-injective e) (refl-SamePlaces d)
finish_act-SamePlaces options d (ok x) a e =
    let (next, e1, r1) = >>=-eq-done (get_next_action_idx false d) _ e in
    let d' = record d { next_action_idx = next } in
    let (options', e2, r2) = >>=-eq-done (get_next_action_options d') _ r1 in
    subst (λ y. SamePlaces d y.game_data) (done-injective r2)
      (players-SamePlaces d d' refl refl refl)

pub act-SamePlaces :
    (action : Action) (options : Option (List Action)) (d : GameData) (a : Acted)
    → act action options d ≡ done a
    → SamePlaces d a.game_data
unfolding act
act-SamePlaces action options d a e =
    let (r, e1, r1) = >>=-eq-done (affect_at d.next_action_idx options action d) _ e in
    trans-SamePlaces d r.0 a.game_data
      (affect_at-SamePlaces d.next_action_idx options action d r e1)
      (finish_act-SamePlaces options r.0 r.1 a r1)
