-- ===== src/Game/Money/Deal.antt =====
-- The button, the deal, the board, the shown hands and the blinds' update move no money.
use mathlib.Core.List.{reverse}
use private_poker.Prelude.{
  ◌-◌, max, ℕ, zero, suc, ◌+◌, ◌*◌, ◌≡◌, refl, List, [], ◌∷◌, ◌++◌, map, arith, sum_by, sum_by-set,
  length, length-map, length-set, Option, some, get_elem?, set, ltb, u32_mod, done, expect,
  >>=-eq-done, done-injective, subst, true, Bool-cases, inl, inr, not, if◌then◌else◌, count_by,
}
use private_poker.Entities.{Card, Action, is_fold}
use private_poker.Entities.Player.{Player}
use private_poker.Entities.Pot.{Investments}
use private_poker.Game.{GameData, range_from}
use private_poker.Game.Queries.{
  get_num_users, reset_waiting, prepare_for_next_phase, get_next_action_idx,
  get_next_action_options,
}
use private_poker.Game.Blinds
use private_poker.Game.Blinds.{cycle_skip_next}
use private_poker.Game.Deal
use private_poker.Game.Deal.{deal_cards, draw}
use private_poker.Game.Showdown
use private_poker.Game.Showdown.{show_invested}
use private_poker.Game.Showdown.{checked_div}
use private_poker.Game.Cleanup.{min_stack, with_blinds, update_blinds}
use private_poker.Game.Census.{census, money_weight, weigh_player}
use private_poker.Game.Money.Hand.{Carries, trans-Carries, refl-Carries, sum_by-reset_waiting}

-- Only the players' cards and states, and what is not money, differ.
pub players-Carries :
    (d d' : GameData)
    → d'.spectators ≡ d.spectators
    → d'.waitlist ≡ d.waitlist
    → d'.pot ≡ d.pot
    → d'.settings ≡ d.settings
    → d'.donations ≡ d.donations
    → length d'.players ≡ length d.players
    → sum_by (weigh_player money_weight) d'.players ≡ sum_by (weigh_player money_weight) d.players
    → Carries d d'
unfolding census get_num_users
players-Carries d d' e1 e2 e3 e4 e5 e6 e7 = record {
  same_cash = rw (e1, e2, e3, e7) refl;
  same_dues = rw (e1, e2, e4, e6) refl;
  same_donations = e5;
}

pub prepare_for_next_phase-Carries :
    (d : GameData) (r : GameData × Option (List Action))
    → prepare_for_next_phase d ≡ done r
    → Carries d r.0
unfolding prepare_for_next_phase
prepare_for_next_phase-Carries d r e =
    let d' = record d {
      num_players_called = 0;
      players = map reset_waiting d.players;
      next_action_idx = some d.starting_action_idx;
    } in
    let (next, e1, r1) = >>=-eq-done (get_next_action_idx true d') _ e in
    let (options, e2, r2) =
      >>=-eq-done (get_next_action_options (record d' { next_action_idx = next })) _ r1 in
    subst (λ x. Carries d x.0) (done-injective r2)
      (players-Carries d (record d' { next_action_idx = next }) refl refl refl refl refl
        (length-map d.players reset_waiting) (sum_by-reset_waiting money_weight d.players))

deal_cards-Carries : (count k : ℕ) (d d' : GameData) → deal_cards count k d ≡ done d' → Carries d d'
unfolding deal_cards
deal_cards-Carries zero k d d' e = subst (Carries d) (done-injective e) (refl-Carries d)
deal_cards-Carries (suc count) k d d' e =
    let (i, e1, r1) = >>=-eq-done (cycle_skip_next (range_from 0 (length d.players)) k) _ e in
    let (p, e2, r2) = >>=-eq-done (expect (get_elem? d.players i)) _ r1 in
    let (card, e3, r3) = >>=-eq-done (expect (get_elem? d.deck d.deck_idx)) _ r2 in
    let p' : Player = record p { cards = p.cards ++ card ∷ [] } in
    let at : get_elem? d.players i ≡ some p = ground arith in
    let dealt : GameData = record d { players = set d.players i p'; deck_idx = d.deck_idx + 1 } in
    trans-Carries d dealt d'
      (players-Carries d dealt refl refl refl refl refl (length-set d.players i p')
        (omega (arith, sum_by-set (weigh_player money_weight) d.players i p p' at)))
      (deal_cards-Carries count (k + 1) dealt d' r3)

pub deal-Carries :
    (shuffle : List Card → List Card) (d : GameData) (r : GameData × Option (List Action))
    → Deal.deal shuffle d ≡ done r
    → Carries d r.0
unfolding Deal.deal
deal-Carries shuffle d r e =
    let d0 : GameData = record d { deck = shuffle d.deck; deck_idx = 0 } in
    let (d1, e1, r1) = >>=-eq-done (deal_cards (2 * length d.players) d.small_blind_idx d0) _ e in
    trans-Carries d d0 r.0 (players-Carries d d0 refl refl refl refl refl refl refl) (
      trans-Carries d0 d1 r.0 (deal_cards-Carries (2 * length d.players) d.small_blind_idx d0 d1 e1)
        (prepare_for_next_phase-Carries d1 r r1))

pub draw-Carries : (d d' : GameData) → draw d ≡ done d' → Carries d d'
unfolding draw
draw-Carries d d' e =
    let (card, e1, r1) = >>=-eq-done (expect (get_elem? d.deck d.deck_idx)) _ e in
    subst (Carries d) (done-injective r1) (
      players-Carries d (record d { board = d.board ++ card ∷ []; deck_idx = d.deck_idx + 1 }) refl
        refl refl refl refl refl refl)

pub flop-Carries : (d d' : GameData) → Deal.flop d ≡ done d' → Carries d d'
unfolding Deal.flop
flop-Carries d d' e =
    let (d1, e1, r1) = >>=-eq-done (draw d) _ e in
    let (d2, e2, r2) = >>=-eq-done (draw d1) _ r1 in
    trans-Carries d d1 d' (draw-Carries d d1 e1)
      (trans-Carries d1 d2 d' (draw-Carries d1 d2 e2) (draw-Carries d2 d' r2))

show_invested-keeps :
    (m : Investments) (ps ps' : List Player)
    → show_invested m ps ≡ done ps'
    → (length ps' ≡ length ps)
      × (sum_by (weigh_player money_weight) ps' ≡ sum_by (weigh_player money_weight) ps)
unfolding show_invested
show_invested-keeps [] ps ps' e = (ground arith, ground arith)
show_invested-keeps ((i, x) ∷ m) ps ps' e =
    let (p, e1, r1) = >>=-eq-done (expect (get_elem? ps i)) _ e in
    let at : get_elem? ps i ≡ some p = ground arith in
    let shown : Player = record p { showing = true } in
    let ps1 = if is_fold p.state then ps else set ps i shown in
    let (kept, same) = show_invested-keeps m ps1 ps' r1 in
    let set_same = sum_by-set (weigh_player money_weight) ps i p shown at in
    (ground (arith, kept, length-set ps i shown), ground (arith, same, set_same))

pub show_hands-Carries : (d d' : GameData) → Showdown.show_hands d ≡ done d' → Carries d d'
unfolding Showdown.show_hands
show_hands-Carries d d' e =
    elim (Bool-cases (ltb 1 (count_by (λ p. not (is_fold p.state)) d.players))) [
      | inr alone ↦ subst (Carries d) (done-injective (rw alone at e)) (refl-Carries d)
      | inl many ↦
          let (ps, e1, r1) =
            >>=-eq-done (show_invested d.pot.investments d.players) _ (rw many at e) in
          let (kept, same) = show_invested-keeps d.pot.investments d.players ps e1 in
          subst (Carries d) (done-injective r1)
            (players-Carries d (record d { players = ps }) refl refl refl refl refl kept same)
    ]

pub move_button-Carries : (d d' : GameData) → Blinds.move_button d ≡ done d' → Carries d d'
unfolding Blinds.move_button
move_button-Carries d d' e =
    let indices = range_from 0 (length d.players) in
    let (big, e1, r1) = >>=-eq-done (cycle_skip_next indices (d.big_blind_idx + 1)) _ e in
    let (start, e2, r2) = >>=-eq-done (cycle_skip_next indices (d.big_blind_idx + 2)) _ r1 in
    let (small, e3, r3) =
      >>=-eq-done (cycle_skip_next (reverse indices) (length d.players - big)) _ r2 in
    subst (Carries d) (done-injective r3) (
      players-Carries d
        (record d {
          big_blind_idx = big;
          starting_action_idx = start;
          next_action_idx = some start;
          small_blind_idx = small;
        })
        refl refl refl refl refl refl refl)

pub update_blinds-Carries : (d d' : GameData) → update_blinds d ≡ done d' → Carries d d'
unfolding update_blinds
update_blinds-Carries d d' e = elim (Bool-cases (ltb (min_stack d) (u32_mod - 1))) [
  | inr none_left ↦ subst (Carries d) (done-injective (rw none_left at e)) (refl-Carries d)
  | inl some_left ↦
      let (multiple, e1, r1) =
        >>=-eq-done (checked_div (min_stack d) d.settings.buy_in) _ (rw some_left at e) in
      subst (Carries d) (done-injective r1)
        (players-Carries d (with_blinds (max 1 multiple) d) refl refl refl refl refl refl refl)
]
