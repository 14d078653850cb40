-- ===== src/Game/Money/Actions.antt =====
-- The actions in private_poker/src/game.rs: a bet moves money from a stack to the pot.
use private_poker.Prelude.{
  ℕ, ◌≡◌, ◌≤◌, ◌<◌, refl, List, arith, sum_by-set, length-set, subst, done-injective, Option, some,
  none, get_elem?, set, u32_mod, sub_u32, add_usize, sub_usize, done, expect, >>=-eq-done, false,
  Bool-cases, inl, inr,
}
use private_poker.Entities.{Usd, Action, Bet, PlayerState}
use private_poker.Entities.Player.{Player}
use private_poker.Entities.Pot.{bet}
use private_poker.Game.{GameData, Result, ok, err}
use private_poker.Game.Queries.{get_next_action_idx, get_next_action_options, get_num_users}
use private_poker.Game.Blinds.{with_money}
use private_poker.Game.Betting.{
  with_state, affect_at, finish_act, Acted, act, is_option, Counted, clamp_bet, settle_bet,
  place_bet, affect_player, apply_counted,
}
use private_poker.Game.Census.{census, money_weight, weigh_player}
use private_poker.Game.Money.{cash}
use private_poker.Game.Money.Hand.{
  Carries, trans-Carries, refl-Carries, pay-Carries, sum_by-reset_others, length-reset_others,
}

-- The data after the bet, before the others' states are reset.
abbrev bet_placed : ℕ → Player → Bet → PlayerState → GameData → GameData
bet_placed i p b s d = record d {
  players = set d.players i (with_money p s (sub_u32 p.user.money b.amount));
  pot = bet d.pot i b.amount;
}

settle_bet-Carries :
    (i : ℕ) (p : Player) (b : Bet) (c : Counted) (d : GameData)
    → get_elem? d.players i ≡ some p
    → b.amount ≤ p.user.money
    → cash d < u32_mod
    → Carries d (settle_bet i p b c d)
unfolding settle_bet census get_num_users bet
settle_bet-Carries i p b c d e le small =
    let paid =
      pay-Carries i b.amount p c.state d (bet_placed i p b c.state d) e le small refl refl refl refl
        refl refl in
    let players' = set d.players i (with_money p c.state (sub_u32 p.user.money b.amount)) in
    record {
      same_cash = ground (arith, paid.same_cash, sum_by-reset_others money_weight i players');
      same_dues = ground (arith, paid.same_dues, length-reset_others i players');
      same_donations = refl;
    }

apply_counted-Carries :
    (i : ℕ) (p : Player) (b : Bet) (d : GameData) (r : Result Counted)
    → get_elem? d.players i ≡ some p
    → b.amount ≤ p.user.money
    → cash d < u32_mod
    → Carries d (apply_counted i p b d r).0
apply_counted-Carries i p b d (ok c) e le small = settle_bet-Carries i p b c d e le small
apply_counted-Carries i p b d (err x) e le small = refl-Carries d

-- No bet exceeds the stack.
clamp_bet_bounds : (money : Usd) (b : Bet) → (clamp_bet money b).amount ≤ money
clamp_bet_bounds money b = ground arith

place_bet-Carries :
    (i : ℕ) (p : Player) (b : Bet) (d : GameData)
    → get_elem? d.players i ≡ some p
    → cash d < u32_mod
    → Carries d (place_bet i p b d).0
unfolding place_bet
place_bet-Carries i p b d e small =
    apply_counted-Carries i p (clamp_bet p.user.money b) d _ e (clamp_bet_bounds p.user.money b)
      small

-- A check or a fold changes a state and a count.
with_state-Carries :
    (i : ℕ) (p : Player) (s : PlayerState) (active called : ℕ) (d : GameData)
    → get_elem? d.players i ≡ some p
    → Carries d (record d {
      num_players_active = active;
      num_players_called = called;
      players = set d.players i (with_state p s);
    })
unfolding census get_num_users
with_state-Carries i p s active called d e = record {
  same_cash =
      omega (arith, sum_by-set (weigh_player money_weight) d.players i p (with_state p s) e);
  same_dues = rw (length-set d.players i (with_state p s)) refl;
  same_donations = refl;
}

affect_player-Carries :
    (i : ℕ) (p : Player) (a : Action) (d : GameData)
    → get_elem? d.players i ≡ some p
    → cash d < u32_mod
    → Carries d (affect_player i p a d).0
affect_player-Carries i p Action.all_in d e small = place_bet-Carries i p _ d e small
affect_player-Carries i p (Action.call amount) d e small = place_bet-Carries i p _ d e small
affect_player-Carries i p Action.check d e small =
    with_state-Carries i p PlayerState.check d.num_players_active (add_usize d.num_players_called 1)
      d e
affect_player-Carries i p Action.fold d e small =
    with_state-Carries i p PlayerState.fold (sub_usize d.num_players_active 1) d.num_players_called
      d e
affect_player-Carries i p (Action.raise amount) d e small = place_bet-Carries i p _ d e small

affect_at-Carries :
    (next : Option ℕ) (options : Option (List Action)) (a : Action) (d : GameData)
    (r : GameData × Result Action)
    → affect_at next options a d ≡ done r
    → cash d < u32_mod
    → Carries d r.0
unfolding affect_at
affect_at-Carries none options a d r e small =
    subst (λ x. Carries d x.0) (done-injective e) (refl-Carries d)
affect_at-Carries (some i) none a d r e small =
    subst (λ x. Carries d x.0) (done-injective e) (refl-Carries d)
affect_at-Carries (some i) (some options) a d r e small = elim (Bool-cases (is_option a options)) [
  | inr refused ↦ subst (λ x. Carries d x.0) (done-injective (rw refused at e)) (refl-Carries d)
  | inl allowed ↦
      let (p, found, r') = >>=-eq-done (expect (get_elem? d.players i)) _ (rw allowed at e) in
      subst (λ x. Carries d x.0) (done-injective r')
        (affect_player-Carries i p a d (ground arith) small)
]

finish_act-Carries :
    (options : Option (List Action)) (d : GameData) (r : Result Action) (a : Acted)
    → finish_act options d r ≡ done a
    → Carries d a.game_data
unfolding census get_num_users
finish_act-Carries options d (err x) a e =
    subst (λ y. Carries d y.game_data) (done-injective e) (refl-Carries d)
finish_act-Carries options d (ok x) a e =
    let (next, e1, r1) = >>=-eq-done (get_next_action_idx false d) _ e in
    let (options', e2, r2) =
      >>=-eq-done (get_next_action_options (record d { next_action_idx = next })) _ r1 in
    subst (λ y. Carries d y.game_data) (done-injective r2)
      (record { same_cash = refl; same_dues = refl; same_donations = refl })

-- An action, accepted or refused, moves money only between the stacks and the pot: their sum, the
-- number of users times the buy-in, and the donations stay the same. The conditions: the call of
-- `act` ends, and the stacks and the pot together fit a u32.
pub act-Carries :
    (action : Action) (options : Option (List Action)) (d : GameData) (a : Acted)
    → act action options d ≡ done a
    → cash d < u32_mod
    → Carries d a.game_data
unfolding act
act-Carries action options d a e small =
    let (r, e1, r1) = >>=-eq-done (affect_at d.next_action_idx options action d) _ e in
    trans-Carries d r.0 a.game_data
      (affect_at-Carries d.next_action_idx options action d r e1 small)
      (finish_act-Carries options r.0 r.1 a r1)
