-- ===== src/Game/Money/Reach.antt =====
-- Every request and every action keeps the money balanced, and so does every move of a game in
-- private_poker/src/game.rs.
use mathlib.Core.Option.{some-injective}
use private_poker.Prelude.{
  some, Bool, str_eq, [], ◌∷◌, sum_by, ◌≡◌, refl, sym, subst, ◌<◌, arith, Bool-cases, inl, inr,
  Option-cases, List, u32_mod,
}
use private_poker.Entities.{Username}
use private_poker.Game.{GameData}
use private_poker.Game.Phases.{PokerState, game_data}
use private_poker.Game.Phases.Requests.{
  with_data, is_queued, new_user, waitlist_user, remove_user, spectate_user, show_hand,
}
use private_poker.Game.Phases.Reach.{Request, request, Move, steps, asks, acts}
use private_poker.Entities.Player.{Player}
use private_poker.Game.Users
use private_poker.Game.Users.{show_first}
use private_poker.Game.Census.{IsCensus, Weight, weigh_player, census}
use private_poker.Game.Census.Reach.{game_data-with_data, game_data-init_start, take_action-cases}
use private_poker.Game.Money.{IsBalanced, IsSmall, cash, invested}
use private_poker.Game.Money.Users.{
  stay-IsBalanced, remove_user-IsBalanced, queue_remove_user-IsBalanced, spectate_user-IsBalanced,
  queue_spectate_user-IsBalanced, waitlist_user-IsBalanced, new_user-IsBalanced,
}
use private_poker.Game.Money.Hand.{Carries-IsBalanced}
use private_poker.Game.Money.Actions.{act-Carries}
use private_poker.Game.Money.Step.{step-IsBalanced}

with_data-IsBalanced :
    (s : PokerState) (d : GameData) → IsBalanced d → IsBalanced (game_data (with_data s d))
with_data-IsBalanced s d b = subst IsBalanced (sym (game_data-with_data s d)) b

sum_by-show_first :
    (w : Weight) (name : Username) (ps qs : List Player) (shown : Bool)
    → show_first name ps ≡ some (shown, qs)
    → sum_by (weigh_player w) qs ≡ sum_by (weigh_player w) ps
unfolding show_first
sum_by-show_first w name [] qs shown e = cc
sum_by-show_first w name (p ∷ ps) qs shown e = elim (Bool-cases (str_eq p.user.name name)) [
  | inl first ↦
      subst (λ x. sum_by (weigh_player w) x.1 ≡ sum_by (weigh_player w) (p ∷ ps))
        (some-injective _ _ (rw first at e)) refl
  | inr later ↦ elim (Option-cases (show_first name ps)) [
    | inl missing ↦ cc (rw (later, missing) at e)
    | inr ((b, rest), found) ↦
        subst (λ x. sum_by (weigh_player w) x.1 ≡ sum_by (weigh_player w) (p ∷ ps))
          (some-injective _ _ (rw (later, found) at e))
          (omega (arith, sum_by-show_first w name ps rest b found))
  ]
]

-- Showing a hand moves nobody and no money.
show_hand-keeps :
    (name : Username) (d : GameData) → IsBalanced d → IsBalanced (Users.show_hand name d).0
unfolding Users.show_hand census
show_hand-keeps name d b = elim (Option-cases (show_first name d.players)) [
  | inl missing ↦ rw (missing, Users.show_hand) b
  | inr ((shown, ps), found) ↦ elim (Bool-cases shown) [
    | inl already ↦ rw (found, already, Users.show_hand) b
    | inr first ↦
        rw (found, first, Users.show_hand)
          (stay-IsBalanced d (record d { players = ps }) b (refl, refl)
            (λ w. omega (arith, sum_by-show_first w name d.players ps shown found)) refl)
  ]
]

show_hand-IsBalanced :
    (name : Username) (s : PokerState)
    → IsBalanced (game_data s)
    → IsBalanced (game_data (show_hand name s).0)
unfolding show_hand
show_hand-IsBalanced name (PokerState.lobby d l) b = b
show_hand-IsBalanced name (PokerState.seat_players d) b = b
show_hand-IsBalanced name (PokerState.move_button d) b = b
show_hand-IsBalanced name (PokerState.collect_blinds d) b = b
show_hand-IsBalanced name (PokerState.deal d) b = b
show_hand-IsBalanced name (PokerState.take_action d _) b = b
show_hand-IsBalanced name (PokerState.flop d) b = b
show_hand-IsBalanced name (PokerState.turn d) b = b
show_hand-IsBalanced name (PokerState.river d) b = b
show_hand-IsBalanced name (PokerState.show_hands d c) b = show_hand-keeps name d b
show_hand-IsBalanced name (PokerState.distribute_pot d c) b = show_hand-keeps name d b
show_hand-IsBalanced name (PokerState.remove_players d) b = show_hand-keeps name d b
show_hand-IsBalanced name (PokerState.divide_donations d) b = b
show_hand-IsBalanced name (PokerState.update_blinds d) b = show_hand-keeps name d b
show_hand-IsBalanced name (PokerState.boot_players d) b = b

module _ (name : Username) (s : PokerState) (c : IsCensus (game_data s))
    (small : IsSmall (game_data s)) (b : IsBalanced (game_data s)) where
  joins-IsBalanced : IsBalanced (game_data (new_user name s).0)
  unfolding new_user
  joins-IsBalanced = with_data-IsBalanced s _ (new_user-IsBalanced name (game_data s) b)

  waits-IsBalanced : IsBalanced (game_data (waitlist_user name s).0)
  unfolding waitlist_user
  waits-IsBalanced = with_data-IsBalanced s _ (waitlist_user-IsBalanced name (game_data s) b c)

  leaves-IsBalanced : IsBalanced (game_data (remove_user name s).0)
  unfolding remove_user
  leaves-IsBalanced = elim (Bool-cases (is_queued s)) [
    | inl queued ↦
        rw queued
          (with_data-IsBalanced s _ (queue_remove_user-IsBalanced name (game_data s) small b))
    | inr at_once ↦
        rw at_once (with_data-IsBalanced s _ (remove_user-IsBalanced name (game_data s) small b))
  ]

  watches-IsBalanced : IsBalanced (game_data (spectate_user name s).0)
  unfolding spectate_user
  watches-IsBalanced = elim (Bool-cases (is_queued s)) [
    | inl queued ↦
        rw queued (with_data-IsBalanced s _ (queue_spectate_user-IsBalanced name (game_data s) b))
    | inr at_once ↦
        rw at_once (with_data-IsBalanced s _ (spectate_user-IsBalanced name (game_data s) b))
  ]

  request-IsBalanced : (r : Request) → IsBalanced (game_data (request r name s))
  request-IsBalanced Request.join = joins-IsBalanced
  request-IsBalanced Request.wait = waits-IsBalanced
  request-IsBalanced Request.leave = leaves-IsBalanced
  request-IsBalanced Request.watch = watches-IsBalanced
  request-IsBalanced Request.start = subst IsBalanced (sym (game_data-init_start name s)) b
  request-IsBalanced Request.show = show_hand-IsBalanced name s b

-- Every move of the game, be it a step that ends, a user's request or an action that ends, keeps
-- the money balanced: the stacks, the pot and the donations together are the buy-in for each user
-- present. The conditions: no user stands in two places, the money and the buy-ins present are
-- amounts for which an f32 is exact, and the pot is empty when the blinds are about to be
-- collected.
pub Move-IsBalanced :
    {s t : PokerState}
    → Move s t
    → IsCensus (game_data s)
    → IsSmall (game_data s)
    → IsBalanced (game_data s)
    → ((d : GameData) → s ≡ PokerState.collect_blinds d → invested d.pot.investments ≡ 0)
    → IsBalanced (game_data t)
Move-IsBalanced (steps shuffle e) c small b paid = step-IsBalanced shuffle _ _ e c small b paid
Move-IsBalanced (asks r name) c small b paid = request-IsBalanced name _ c small b r
Move-IsBalanced (acts name action r e) c small b paid =
    take_action-cases name action _ r e IsBalanced b (λ d options a same done_act.
      let less : cash d < u32_mod =
        subst (λ x. cash x < u32_mod) (sym same) (omega (arith, small.cash_small)) in
      Carries-IsBalanced d a.game_data (act-Carries action options d a done_act less)
        (subst IsBalanced (sym same) b))
