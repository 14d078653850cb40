-- ===== src/Game/Phases/Board.antt =====
-- What each transition does to the board: only the streets add cards, and only booting clears it.
use Prim.Native.Nat.{compare}
use mathlib.Core.List.{reverse}
use private_poker.Prelude.{
  ℕ, zero, suc, ◌+◌, ◌-◌, ◌*◌, ◌≡◌, refl, ◌∙◌, List, [], ◌∷◌, map, arith, length, length-append,
  Option, some, none, get_elem?, done, expect, >>=-eq-done, done-injective, subst, true, false,
  Bool-cases, inl, inr,
}
use private_poker.Entities.{Bet, Card, Action, Usd, User}
use private_poker.Entities.Player.{Player}
use private_poker.Entities.Pot
use private_poker.Entities.Pot.{Investments}
use private_poker.Game.{GameData, Result, ok, err, range_from}
use private_poker.Game.Queries.{
  prepare_for_next_phase, get_next_action_idx, get_next_action_options, reset_waiting,
}
use private_poker.Game.Seats.{seat_user, seat_loop, seat_players}
use private_poker.Game.Blinds.{
  cycle_skip_next, pay_blind, collect_blind, collect_blinds, move_button,
}
use private_poker.Game.Deal.{deal_cards, deal, draw}
use private_poker.Game.Betting.{
  affect_at, affect_player, finish_act, act, Acted, place_bet, settle_bet, apply_counted, Counted,
  is_option,
}

-- A transition that ends leaves the board as it was.
abbrev pub SameBoard : GameData → GameData → Type 0
SameBoard d d' = d'.board ≡ d.board

pub prepare_for_next_phase-board :
    (d : GameData) (r : GameData × Option (List Action))
    → prepare_for_next_phase d ≡ done r
    → SameBoard d r.0
unfolding prepare_for_next_phase
prepare_for_next_phase-board d r e =
    let d' = record d {
      num_players_called = 0;
      players = map reset_waiting d.players;
      next_action_idx = some d.starting_action_idx;
    } in
    let (next, e1, r1) = >>=-eq-done (get_next_action_idx true d') _ e in
    let (options, e2, r2) =
      >>=-eq-done (get_next_action_options (record d' { next_action_idx = next })) _ r1 in
    subst (λ x. SameBoard d x.0) (done-injective r2) refl

seat_user-board : (seat : ℕ) (u : User) (d : GameData) → SameBoard d (seat_user seat u d)
unfolding seat_user
seat_user-board seat u d = ground arith

seat_loop-board :
    (seats : List ℕ) (us : List User) (d : GameData) → SameBoard d (seat_loop seats us d)
unfolding seat_loop
seat_loop-board [] us d = refl
seat_loop-board (seat ∷ seats) [] d = refl
seat_loop-board (seat ∷ seats) (u ∷ us) d =
    seat_loop-board seats us (seat_user seat u d) ∙ seat_user-board seat u d

pub seat_players-board : (d : GameData) → SameBoard d (seat_players d)
unfolding seat_players
seat_players-board d = seat_loop-board d.open_seats d.waitlist d

pub move_button-board : (d d' : GameData) → move_button d ≡ done d' → SameBoard d d'
unfolding move_button
move_button-board d d' e =
    let indices = range_from 0 (length d.players) in
    let (big, e1, r1) = >>=-eq-done (cycle_skip_next indices (d.big_blind_idx + 1)) _ e in
    let (start, e2, r2) = >>=-eq-done (cycle_skip_next indices (d.big_blind_idx + 2)) _ r1 in
    let (small, e3, r3) =
      >>=-eq-done (cycle_skip_next (reverse indices) (length d.players - big)) _ r2 in
    subst (SameBoard d) (done-injective r3) refl

collect_blind-board :
    (i : ℕ) (blind : Usd) (d d' : GameData) → collect_blind i blind d ≡ done d' → SameBoard d d'
unfolding collect_blind
collect_blind-board i blind d d' e =
    let (p, e1, r1) = >>=-eq-done (expect (get_elem? d.players i)) _ e in
    let (paid, e2, r2) =
      >>=-eq-done (pay_blind (compare p.user.money blind) d.num_players_active) _ r1 in
    subst (SameBoard d) (done-injective r2) refl

pub collect_blinds-board : (d d' : GameData) → collect_blinds d ≡ done d' → SameBoard d d'
unfolding collect_blinds
collect_blinds-board d d' e =
    let d0 : GameData = record d { pot = Pot.new } in
    let (d1, e1, r1) = >>=-eq-done (collect_blind d.small_blind_idx d.small_blind d0) _ e in
    let (d2, e2, r2) = >>=-eq-done (collect_blind d1.big_blind_idx d1.big_blind d1) _ r1 in
    subst (SameBoard d) (done-injective r2) (
      collect_blind-board d1.big_blind_idx d1.big_blind d1 d2 e2
      ∙ collect_blind-board d.small_blind_idx d.small_blind d0 d1 e1)

deal_cards-board : (count k : ℕ) (d d' : GameData) → deal_cards count k d ≡ done d' → SameBoard d d'
unfolding deal_cards
deal_cards-board zero k d d' e = subst (SameBoard d) (done-injective e) refl
deal_cards-board (suc count) k d d' e =
    let (i, e1, r1) = >>=-eq-done (cycle_skip_next (range_from 0 (length d.players)) k) _ e in
    let (p, e2, r2) = >>=-eq-done (expect (get_elem? d.players i)) _ r1 in
    let (card, e3, r3) = >>=-eq-done (expect (get_elem? d.deck d.deck_idx)) _ r2 in
    deal_cards-board count (k + 1) _ d' r3

pub deal-board :
    (shuffle : List Card → List Card) (d : GameData) (r : GameData × Option (List Action))
    → deal shuffle d ≡ done r
    → SameBoard d r.0
unfolding deal
deal-board shuffle d r e =
    let d0 : GameData = record d { deck = shuffle d.deck; deck_idx = 0 } in
    let (d1, e1, r1) = >>=-eq-done (deal_cards (2 * length d.players) d.small_blind_idx d0) _ e in
    prepare_for_next_phase-board d1 r r1
    ∙ deal_cards-board (2 * length d.players) d.small_blind_idx d0 d1 e1

-- A street's card comes to the board.
pub length-draw : (d d' : GameData) → draw d ≡ done d' → length d'.board ≡ length d.board + 1
unfolding draw
length-draw d d' e =
    let (card, e1, r1) = >>=-eq-done (expect (get_elem? d.deck d.deck_idx)) _ e in
    subst (λ x. length x.board ≡ length d.board + 1) (done-injective r1)
      (length-append d.board (card ∷ []))

apply_counted-board :
    (i : ℕ) (p : Player) (b : Bet) (d : GameData) (r : Result Counted)
    → SameBoard d (apply_counted i p b d r).0
unfolding settle_bet
apply_counted-board i p b d (ok c) = refl
apply_counted-board i p b d (err x) = refl

place_bet-board : (i : ℕ) (p : Player) (b : Bet) (d : GameData) → SameBoard d (place_bet i p b d).0
unfolding place_bet
place_bet-board i p b d = apply_counted-board i p _ d _

affect_player-board :
    (i : ℕ) (p : Player) (a : Action) (d : GameData) → SameBoard d (affect_player i p a d).0
affect_player-board i p Action.all_in d = place_bet-board i p _ d
affect_player-board i p (Action.call amount) d = place_bet-board i p _ d
affect_player-board i p Action.check d = refl
affect_player-board i p Action.fold d = refl
affect_player-board i p (Action.raise amount) d = place_bet-board i p _ d

affect_at-board :
    (next : Option ℕ) (options : Option (List Action)) (a : Action) (d : GameData)
    (r : GameData × Result Action)
    → affect_at next options a d ≡ done r
    → SameBoard d r.0
unfolding affect_at
affect_at-board none options a d r e = subst (λ x. SameBoard d x.0) (done-injective e) refl
affect_at-board (some i) none a d r e = subst (λ x. SameBoard d x.0) (done-injective e) refl
affect_at-board (some i) (some options) a d r e = elim (Bool-cases (is_option a options)) [
  | inr refused ↦ subst (λ x. SameBoard d x.0) (done-injective (rw refused at e)) refl
  | inl allowed ↦
      let (p, found, r') = >>=-eq-done (expect (get_elem? d.players i)) _ (rw allowed at e) in
      subst (λ x. SameBoard d x.0) (done-injective r') (affect_player-board i p a d)
]

finish_act-board :
    (options : Option (List Action)) (d : GameData) (r : Result Action) (a : Acted)
    → finish_act options d r ≡ done a
    → SameBoard d a.game_data
finish_act-board options d (err x) a e =
    subst (λ y. SameBoard d y.game_data) (done-injective e) refl
finish_act-board options d (ok x) a e =
    let (next, e1, r1) = >>=-eq-done (get_next_action_idx false d) _ e in
    let (options', e2, r2) =
      >>=-eq-done (get_next_action_options (record d { next_action_idx = next })) _ r1 in
    subst (λ y. SameBoard d y.game_data) (done-injective r2) refl

pub act-board :
    (action : Action) (options : Option (List Action)) (d : GameData) (a : Acted)
    → act action options d ≡ done a
    → SameBoard d a.game_data
unfolding act
act-board action options d a e =
    let (r, e1, r1) = >>=-eq-done (affect_at d.next_action_idx options action d) _ e in
    finish_act-board options r.0 r.1 a r1 ∙ affect_at-board d.next_action_idx options action d r e1
