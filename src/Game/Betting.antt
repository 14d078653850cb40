-- ===== src/Game/Betting.antt =====
-- `Game<TakeAction>` of private_poker/src/game.rs: `affect` and `act`.
pub mod Refusal
use private_poker.Prelude.{
  ℕ, suc, zero, ◌==◌, not, Bool, false, List, [], ◌∷◌, map, Option, none, some, ltb, leb, any,
  if◌then◌else◌, get_elem?, set, add_u32, sub_u32, mul_u32, add_usize, sub_usize, Outcome, done,
  ◌>>=◌, expect,
}
use private_poker.Entities.{Usd, Action, Bet, BetAction, PlayerState, action_eq, action_of_bet}
use private_poker.Entities.Player.{Player}
use private_poker.Entities.Pot
use private_poker.Game.{GameData, Result, ok, err, invalid_action, invalid_bet, out_of_turn_action}
use private_poker.Game.Blinds.{with_money}
use private_poker.Game.Queries.{get_next_action_idx, get_next_action_options, reset_waiting}

-- `action_options.contains(action)`, by variant.
abbrev pub is_option : Action → List Action → Bool
is_option action options = any (λ a. action_eq action a) options

-- A bet of the whole stack or more is an all-in.
abbrev pub clamp_bet : Usd → Bet → Bet
clamp_bet money b =
    if leb money b.amount then record { action = BetAction.all_in; amount = money } else b

-- The players' states that a bet resets to waiting: all but the bettor's.
unfoldable pub reset_others : ℕ → List Player → List Player
reset_others i [] = []
reset_others zero (p ∷ ps) = p ∷ map reset_waiting ps
reset_others (suc i) (p ∷ ps) = reset_waiting p ∷ reset_others i ps

-- What an accepted bet does: counts of active and called players, and the bettor's new state.
pub record Counted : Type 0 where
  pub active : ℕ
  pub called : ℕ
  pub state : PlayerState

abbrev pub count_bet : BetAction → Bet → ℕ → ℕ → GameData → Result Counted
count_bet BetAction.all_in bet call new_investment d = ok (record {
  active = sub_usize d.num_players_active 1;
  called = if ltb call new_investment then 0 else d.num_players_called;
  state = PlayerState.all_in;
})
count_bet BetAction.call bet call new_investment d =
    if new_investment == call
    then ok (record {
      active = d.num_players_active;
      called = add_usize d.num_players_called 1;
      state = PlayerState.call;
    })
    else err (invalid_bet bet)
count_bet BetAction.raise bet call new_investment d =
    if ltb new_investment (mul_u32 2 call)
    then err (invalid_bet bet)
    else ok (record { active = d.num_players_active; called = 1; state = PlayerState.raise })

-- The bet leaves the stack for the pot, and others may have to act again.
unfoldable pub settle_bet : ℕ → Player → Bet → Counted → GameData → GameData
unfolding reset_others
settle_bet i p bet c d =
    let players = set d.players i (with_money p c.state (sub_u32 p.user.money bet.amount)) in
    record d {
      num_players_active = c.active;
      num_players_called = c.called;
      pot = Pot.bet d.pot i bet.amount;
      players = if leb c.called 1 then reset_others i players else players;
    }

abbrev pub apply_counted : ℕ → Player → Bet → GameData → Result Counted → GameData × Result Action
apply_counted i p bet d (ok c) = (settle_bet i p bet c d, ok (action_of_bet bet))
apply_counted i p bet d (err e) = (d, err e)

unfoldable pub place_bet : ℕ → Player → Bet → GameData → GameData × Result Action
unfolding settle_bet
place_bet i p intended d =
    let bet = clamp_bet p.user.money intended in
    let call = Pot.get_call d.pot in
    let new_investment = add_u32 (Pot.get_investment_by_player_idx d.pot i) bet.amount in
    apply_counted i p bet d (count_bet bet.action bet call new_investment d)

abbrev pub with_state : Player → PlayerState → Player
with_state p state = record p { state = state }

-- The match on the action, for the player whose turn it is.
abbrev pub affect_player : ℕ → Player → Action → GameData → GameData × Result Action
affect_player i p Action.all_in d =
    place_bet i p (record { action = BetAction.all_in; amount = p.user.money }) d
affect_player i p (Action.call amount) d =
    place_bet i p (record { action = BetAction.call; amount = amount }) d
affect_player i p Action.check d = (
  record d {
    num_players_called = add_usize d.num_players_called 1;
    players = set d.players i (with_state p PlayerState.check);
  },
  ok Action.check,
)
affect_player i p Action.fold d = (
  record d {
    num_players_active = sub_usize d.num_players_active 1;
    players = set d.players i (with_state p PlayerState.fold);
  },
  ok Action.fold,
)
affect_player i p (Action.raise amount) d =
    place_bet i p (record { action = BetAction.raise; amount = amount }) d

-- The match on whose turn it is and on the options.
unfoldable pub affect_at :
    Option ℕ → Option (List Action) → Action → GameData → Outcome (GameData × Result Action)
unfolding place_bet
affect_at none options action d = done (d, err out_of_turn_action)
affect_at (some i) none action d = done (d, err out_of_turn_action)
affect_at (some i) (some options) action d =
    if not (is_option action options)
    then done (d, err (invalid_action action))
    else (expect (get_elem? d.players i) >>= λ p. done (affect_player i p action d))

-- The data and the options of the state after the call, and its result.
pub record Acted : Type 0 where
  pub game_data : GameData
  pub options : Option (List Action)
  pub result : Result Action

abbrev pub finish_act : Option (List Action) → GameData → Result Action → Outcome Acted
finish_act options d (err e) = done (record { game_data = d; options = options; result = err e })
finish_act options d (ok a) = get_next_action_idx false d >>= λ next.
    let d' = record d { next_action_idx = next } in
    get_next_action_options d' >>= λ options'.
    done (record { game_data = d'; options = options'; result = ok a })

unfoldable pub act : Action → Option (List Action) → GameData → Outcome Acted
unfolding affect_at get_next_action_idx get_next_action_options
act action options d =
    affect_at d.next_action_idx options action d >>= λ r. finish_act options r.0 r.1
