-- ===== src/Tests/Money.antt =====
-- The money of private_poker/src/game.rs at concrete games.
use private_poker.Prelude.{ℕ, refl, List, [], ◌∷◌, Option, some, arith, false}
use private_poker.Prelude.Int.{pos}
use private_poker.Entities.{Suit, Action, PlayerState, User}
use private_poker.Entities.Player.{Player}
use private_poker.Entities.Pot.{get_investment_by_player_idx, get_call}
use private_poker.Functional.Argmax.{argmax}
use private_poker.Functional.Eval.Grouping.{no_groups}
use private_poker.Game.{GameData, err, out_of_turn_action}
use private_poker.Game.Queries.{get_num_users}
use private_poker.Game.Users.{remove_user, queue_remove_user, new_user}
use private_poker.Game.Blinds.{collect_blinds}
use private_poker.Game.Betting.{act, Acted}
use private_poker.Game.Showdown.{HandEvalCache, distribute}
use private_poker.Game.Cleanup.{divide_donations}
use private_poker.Game.Census.{census}
use private_poker.Game.Money.{IsBalanced}
use private_poker.Game.Money.Hand.{Carries, collect_blinds-Carries}
use private_poker.Game.Money.Actions.{act-Carries}
use private_poker.Game.Money.Users.{
  remove_user-IsBalanced, queue_remove_user-IsBalanced, new_user-IsBalanced,
}
use private_poker.Game.Money.Showdown.{distribute-IsBalanced}
use private_poker.Game.Money.Cleanup.{divide_donations-IsBalanced}
use private_poker.Tests.{or_else, seated, seated-IsSmall, seated-IsBalanced}

remove_user-IsBalanced_example : IsBalanced (remove_user "ann" seated).0
remove_user-IsBalanced_example =
    remove_user-IsBalanced "ann" seated seated-IsSmall seated-IsBalanced

queue_remove_user-IsBalanced_example : IsBalanced (queue_remove_user "ann" seated).0
queue_remove_user-IsBalanced_example =
    queue_remove_user-IsBalanced "ann" seated seated-IsSmall seated-IsBalanced

new_user-IsBalanced_example : IsBalanced (new_user "cid" seated).0
new_user-IsBalanced_example = new_user-IsBalanced "cid" seated seated-IsBalanced

-- Both players are to be removed.
abbrev leaving : GameData
leaving = record seated { players_to_remove = "ann" ∷ "bob" ∷ [] }

-- Ann has won 170 and Bob has lost them, and 30 are donated.
abbrev player : User → ℕ → PlayerState → Player
player u i state = record {
  user = u;
  state = state;
  cards = record { value = 7; suit = Suit.club } ∷ [];
  showing = false;
  seat_idx = i;
}

abbrev won : GameData
won = record seated {
  players =
      player (record { name = "ann"; money = 365 }) 0 PlayerState.wait
      ∷ player (record { name = "bob"; money = 5 }) 1 PlayerState.wait
      ∷ [];
  donations = pos 30;
}

abbrev divided : GameData
unfolding divide_donations
divided = or_else (divide_donations won) won

divide_donations-IsBalanced_example : IsBalanced divided
unfolding divide_donations seated census get_num_users divided
divide_donations-IsBalanced_example =
    divide_donations-IsBalanced won divided refl
      (record { cash_small = omega arith; dues_small = omega arith }) refl

abbrev with_blinds : GameData
unfolding collect_blinds
with_blinds = or_else (collect_blinds seated) seated

collect_blinds-Carries_example : Carries seated with_blinds
unfolding collect_blinds seated census with_blinds
collect_blinds-Carries_example = collect_blinds-Carries seated with_blinds refl (omega arith) refl

-- It is Ann's turn: Bob has bet 10, and she has bet 5.
abbrev turn_of_ann : GameData
turn_of_ann = record seated {
  players =
      player (record { name = "ann"; money = 195 }) 0 PlayerState.wait
      ∷ player (record { name = "bob"; money = 190 }) 1 PlayerState.wait
      ∷ [];
  pot = record { investments = (0, 5) ∷ (1, 10) ∷ [] };
  next_action_idx = some 0;
  num_players_active = 2;
}

abbrev options : Option (List Action)
options = some (Action.call 5 ∷ Action.fold ∷ [])

abbrev called : Acted
unfolding act
called =
    or_else (act (Action.call 5) options turn_of_ann)
      (record { game_data = turn_of_ann; options = options; result = err out_of_turn_action })

act-Carries_example : Carries turn_of_ann called.game_data
unfolding act seated census called get_investment_by_player_idx get_call
act-Carries_example = act-Carries (Action.call 5) options turn_of_ann called refl (omega arith)

-- Bob has folded, and the pot of 20 is Ann's.
abbrev showdown : GameData
showdown = record turn_of_ann {
  players =
      player (record { name = "ann"; money = 190 }) 0 PlayerState.wait
      ∷ player (record { name = "bob"; money = 190 }) 1 PlayerState.fold
      ∷ [];
  pot = record { investments = (0, 10) ∷ (1, 10) ∷ [] };
}

abbrev paid : GameData × HandEvalCache
unfolding distribute
paid = or_else (distribute showdown []) (showdown, [])

distribute-IsBalanced_example : IsBalanced paid.0
unfolding distribute seated census get_num_users paid argmax no_groups
distribute-IsBalanced_example =
    distribute-IsBalanced showdown [] paid refl
      (record { cash_small = omega arith; dues_small = omega arith }) refl
