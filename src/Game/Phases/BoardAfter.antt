-- ===== src/Game/Phases/BoardAfter.antt =====
-- The showdown and the phases after it leave the board alone, until booting clears it; the users'
-- operations never touch it.
use mathlib.Core.List.{reverse}
use private_poker.Prelude.{
  ◌≡◌, refl, ◌∙◌, List, [], ◌∷◌, map, arith, length, ◌-◌, ltb, u32_mod, done, >>=-eq-done,
  done-injective, subst, Bool-cases, inl, inr, not, ◌&&◌, count_by,
}
use private_poker.Prelude.Int.{pos, ltb_ℤ}
use private_poker.Entities.{Usd, Username, is_fold}
use private_poker.Entities.Player.{Player}
use private_poker.Entities.NameSet.{NameSet}
use private_poker.Entities.Pot.{Investments}
use private_poker.Entities.Usdf.{usdf_of, usd_of}
use private_poker.Functional.Argmax.{argmax}
use private_poker.Game.{GameData}
use private_poker.Game.Queries.{get_num_users}
use private_poker.Game.Users.{
  new_user, waitlist_user, remove_user, spectate_user, queue_remove_user, queue_spectate_user,
  remove_at_once, spectate_at_once, remove_by_queue, spectate_by_queue, locate, Place, spectator,
  waitlister, player, nowhere, redistribute_user_money, show_hand,
}
use private_poker.Game.Showdown.{
  show_invested, show_hands, HandEvalCache, distribute, distribute_sorted, checked_div, split_pot,
  gather, pay_winners, sort_investments,
}
use private_poker.Game.Cleanup.{
  remove_queued, remove_players, divide_donations, update_blinds, queue_player, queue_broke,
  reset_rich, spectate_queued, boot_players, min_stack,
}
use private_poker.Game.Phases.Board.{SameBoard}

pub show_hands-board : (d d' : GameData) → show_hands d ≡ done d' → SameBoard d d'
unfolding show_hands
show_hands-board d d' e =
    elim (Bool-cases (ltb 1 (count_by (λ p. not (is_fold p.state)) d.players))) [
      | inr alone ↦ subst (SameBoard d) (done-injective (rw alone at e)) refl
      | inl many ↦
          let (ps, e1, r1) =
            >>=-eq-done (show_invested d.pot.investments d.players) _ (rw many at e) in
          subst (SameBoard d) (done-injective r1) refl
    ]

distribute_sorted-board :
    (m : Investments) (d : GameData) (cache : HandEvalCache) (r : GameData × HandEvalCache)
    → distribute_sorted m d cache ≡ done r
    → SameBoard d r.0
unfolding distribute_sorted
distribute_sorted-board [] d cache r e = subst (λ x. SameBoard d x.0) (done-injective e) refl
distribute_sorted-board (x ∷ m) d cache r e =
    let (s, e1, r1) = >>=-eq-done (split_pot x.1 d.players (x ∷ m)) _ e in
    let (g, e2, r2) =
      >>=-eq-done
        (gather s.pot_call d.players d.board (reverse s.inside) (record {
          pot_size = 0;
          seats_in_pot = [];
          hands_in_pot = [];
          cache = cache;
          remaining = [];
        }))
        _ r1 in
    let winners = argmax g.hands_in_pot in
    let (split, e3, r3) = >>=-eq-done (checked_div g.pot_size (length winners)) _ r2 in
    let (paid, e4, r4) =
      >>=-eq-done (pay_winners split g.seats_in_pot winners d.players (usdf_of g.pot_size)) _ r3 in
    subst (λ y. SameBoard d y.0) (done-injective r4) refl

pub distribute-board :
    (d : GameData) (cache : HandEvalCache) (r : GameData × HandEvalCache)
    → distribute d cache ≡ done r
    → SameBoard d r.0
unfolding distribute
distribute-board d cache r e =
    let (r', e1, r1) =
      >>=-eq-done (distribute_sorted (sort_investments d.pot.investments) d cache) _ e in
    subst (λ y. SameBoard d y.0) (done-injective r1)
      (distribute_sorted-board (sort_investments d.pot.investments) d cache r' e1)

module _ (name : Username) (d : GameData) where
  remove_at_once-board : (pl : Place) → SameBoard d (remove_at_once name d pl).0
  unfolding redistribute_user_money
  remove_at_once-board (spectator u others) = refl
  remove_at_once-board (waitlister u others) = refl
  remove_at_once-board (player p others) = refl
  remove_at_once-board nowhere = refl

  remove_by_queue-board : (pl : Place) → SameBoard d (remove_by_queue name d pl).0
  unfolding redistribute_user_money
  remove_by_queue-board (spectator u others) = refl
  remove_by_queue-board (waitlister u others) = refl
  remove_by_queue-board (player p others) = refl
  remove_by_queue-board nowhere = refl

  spectate_at_once-board : (pl : Place) → SameBoard d (spectate_at_once name d pl).0
  spectate_at_once-board (spectator u others) = refl
  spectate_at_once-board (waitlister u others) = refl
  spectate_at_once-board (player p others) = refl
  spectate_at_once-board nowhere = refl

  spectate_by_queue-board : (pl : Place) → SameBoard d (spectate_by_queue name d pl).0
  spectate_by_queue-board (spectator u others) = refl
  spectate_by_queue-board (waitlister u others) = refl
  spectate_by_queue-board (player p others) = refl
  spectate_by_queue-board nowhere = refl

  pub remove_user-board : SameBoard d (remove_user name d).0
  unfolding remove_user
  remove_user-board = remove_at_once-board (locate name d)

  pub queue_remove_user-board : SameBoard d (queue_remove_user name d).0
  unfolding queue_remove_user
  queue_remove_user-board = ground (arith, remove_by_queue-board (locate name d))

  pub spectate_user-board : SameBoard d (spectate_user name d).0
  unfolding spectate_user
  spectate_user-board = ground (arith, spectate_at_once-board (locate name d))

  pub queue_spectate_user-board : SameBoard d (queue_spectate_user name d).0
  unfolding queue_spectate_user
  queue_spectate_user-board = ground (arith, spectate_by_queue-board (locate name d))

  pub new_user-board : SameBoard d (new_user name d).0
  unfolding new_user
  new_user-board = ground arith

  pub waitlist_user-board : SameBoard d (waitlist_user name d).0
  unfolding waitlist_user
  waitlist_user-board = ground arith

  pub show_hand-board : SameBoard d (show_hand name d).0
  unfolding show_hand
  show_hand-board = ground arith

remove_queued-board : (names : NameSet) (d : GameData) → SameBoard d (remove_queued names d)
unfolding remove_queued
remove_queued-board [] d = refl
remove_queued-board (name ∷ names) d =
    let d' : GameData = record d { players_to_remove = names } in
    remove_queued-board names (remove_user name d').0 ∙ remove_user-board name d'

pub remove_players-board : (d : GameData) → SameBoard d (remove_players d)
unfolding remove_players
remove_players-board d = remove_queued-board d.players_to_remove d

pub divide_donations-board : (d d' : GameData) → divide_donations d ≡ done d' → SameBoard d d'
unfolding divide_donations
divide_donations-board d d' e =
    elim (Bool-cases (ltb 0 (get_num_users d) && ltb_ℤ (pos 0) d.donations)) [
      | inr nothing ↦ subst (SameBoard d) (done-injective (rw nothing at e)) refl
      | inl divides ↦
          let (amount, e1, r1) =
            >>=-eq-done (checked_div (usd_of d.donations) (get_num_users d)) _ (rw divides at e) in
          subst (SameBoard d) (done-injective r1) refl
    ]

pub update_blinds-board : (d d' : GameData) → update_blinds d ≡ done d' → SameBoard d d'
unfolding update_blinds
update_blinds-board d d' e = elim (Bool-cases (ltb (min_stack d) (u32_mod - 1))) [
  | inr none_left ↦ subst (SameBoard d) (done-injective (rw none_left at e)) refl
  | inl some_left ↦
      let (multiple, e1, r1) =
        >>=-eq-done (checked_div (min_stack d) d.settings.buy_in) _ (rw some_left at e) in
      subst (SameBoard d) (done-injective r1) refl
]

queue_player-board :
    (big_blind : Usd) (p : Player) (d : GameData) → SameBoard d (queue_player big_blind p d)
unfolding queue_player
queue_player-board big_blind p d = ground arith

queue_broke-board :
    (big_blind : Usd) (ps : List Player) (d : GameData) → SameBoard d (queue_broke big_blind ps d)
unfolding queue_broke
queue_broke-board big_blind [] d = refl
queue_broke-board big_blind (p ∷ ps) d =
    queue_broke-board big_blind ps (queue_player big_blind p d) ∙ queue_player-board big_blind p d

spectate_queued-board : (names : NameSet) (d : GameData) → SameBoard d (spectate_queued names d)
unfolding spectate_queued
spectate_queued-board [] d = refl
spectate_queued-board (name ∷ names) d =
    let d' : GameData = record d { players_to_spectate = names } in
    spectate_queued-board names (spectate_user name d').0 ∙ spectate_user-board name d'

-- A new hand starts with an empty board.
pub boot_players-board : (d : GameData) → (boot_players d).board ≡ []
unfolding boot_players
boot_players-board d =
    let d1 : GameData = record d { board = []; players = map (reset_rich d.big_blind) d.players } in
    let d2 = queue_broke d.big_blind d.players d1 in
    spectate_queued-board d2.players_to_spectate d2 ∙ queue_broke-board d.big_blind d.players d1
