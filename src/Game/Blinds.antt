-- ===== src/Game/Blinds.antt =====
-- From `MoveButton` to `CollectBlinds` and on to `Deal` in private_poker/src/game.rs: the positions
-- of the blinds, and their payment.
pub mod Positions
use Prim.Native.Nat.{compare, Ordering}
use mathlib.Core.List.{reverse}
use private_poker.Prelude.{
  ℕ, ◌+◌, ◌-◌, ◌%◌, List, some, length, get_elem?, set, sub_u32, sub_usize, Outcome, done, panic,
  ◌>>=◌, expect,
}
use private_poker.Entities.{Usd, PlayerState}
use private_poker.Entities.Player.{Player}
use private_poker.Entities.Pot
use private_poker.Game.{GameData, range_from}

-- `indices.cycle().skip(k).next().expect(..)`.
abbrev pub cycle_skip_next : List ℕ → ℕ → Outcome ℕ
cycle_skip_next indices k = expect (get_elem? indices (k % length indices))

unfoldable pub move_button : GameData → Outcome GameData
unfolding range_from
move_button d =
    let n = length d.players in
    let player_indices = range_from 0 n in
    cycle_skip_next player_indices (d.big_blind_idx + 1) >>= λ big_blind_idx.
    cycle_skip_next player_indices (d.big_blind_idx + 2) >>= λ starting_action_idx.
    cycle_skip_next (reverse player_indices) (n - big_blind_idx) >>= λ small_blind_idx.
    done (record d {
      big_blind_idx = big_blind_idx;
      starting_action_idx = starting_action_idx;
      next_action_idx = some starting_action_idx;
      small_blind_idx = small_blind_idx;
    })

-- The match on how the player's money compares to the blind: the state and the players still
-- active. A player with less than the blind is `unreachable!`.
abbrev pub pay_blind : Ordering → ℕ → Outcome (PlayerState × ℕ)
pay_blind Ordering.eq active = done (PlayerState.all_in, sub_usize active 1)
pay_blind Ordering.gt active = done (PlayerState.wait, active)
pay_blind Ordering.lt active = panic

abbrev pub with_money : Player → PlayerState → ℕ → Player
with_money p state money = record p { state = state; user = record (p.user) { money = money } }

-- One round of the loop over the two blinds. The bet is the blind in either case.
unfoldable pub collect_blind : ℕ → Usd → GameData → Outcome GameData
collect_blind player_idx blind d = expect (get_elem? d.players player_idx) >>= λ p.
    pay_blind (compare p.user.money blind) d.num_players_active >>= λ paid. done (record d {
      players = set d.players player_idx (with_money p paid.0 (sub_u32 p.user.money blind));
      num_players_active = paid.1;
      pot = Pot.bet d.pot player_idx blind;
    })

unfoldable pub collect_blinds : GameData → Outcome GameData
unfolding collect_blind
collect_blinds d =
    collect_blind d.small_blind_idx d.small_blind (record d { pot = Pot.new }) >>= λ d1.
    collect_blind d1.big_blind_idx d1.big_blind d1 >>= λ d2.
    done (record d2 { num_players_called = 0 })
