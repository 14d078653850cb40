-- ===== src/Tests/Rules.antt =====
-- The positions, the pot, the views and the refusals of private_poker/src/game.rs at concrete games.
use private_poker.Prelude.{
  ℕ, ◌+◌, ◌%◌, ◌≡◌, ◌≢◌, ◌<◌, refl, List, [], ◌∷◌, Option, some, arith, done, length, false,
}
use private_poker.Entities.{Card, Suit, Action, Rank, PlayerState, User}
use private_poker.Entities.Player.{Player}
use private_poker.Entities.Pot.{Pot, bet, get_call, get_call_by_player_idx}
use private_poker.Entities.Pot.Calls.{bet-call}
use Prim.Native.Nat.{Ordering}
use private_poker.Functional.Order.{cmp_hand}
use private_poker.Functional.Argmax.{argmax, floor_hand}
use private_poker.Functional.Argmax.Reference.{argmax-best, best_hand, indices_of}
use private_poker.Entities.{SubHand}
use private_poker.Prelude.{get_elem?}
use private_poker.Game.{GameData, err, invalid_action}
use private_poker.Game.Betting.{act, Acted}
use private_poker.Game.Betting.Refusal.{act-err}
use private_poker.Game.Blinds.{move_button}
use private_poker.Game.Blinds.Positions.{move_button-positions}
use private_poker.Game.Queries.{get_next_action_idx, is_end_of_round}
use private_poker.Game.Queries.Waiting.{Waits, get_next_action_idx-Waits}
use private_poker.Game.Views.{as_view}
use private_poker.Game.Views.Privacy.{as_view-AreAlike}
use private_poker.Tests.{seated}
use private_poker.Game.Seats.{seat_players}

abbrev ace : Suit → Card
ace s = record { value = 1; suit = s }

-- Ann has the button's small blind in the pot and Bob the big one.
abbrev blinds : Pot
blinds = record { investments = (0, 5) ∷ (1, 10) ∷ [] }

bet-call_example :
    let p' = bet blinds 0 (get_call_by_player_idx blinds 0) in
    (get_call p' ≡ get_call blinds)
    × (get_call_by_player_idx p' 0 ≡ 0)
    × ((j : ℕ) → 0 ≢ j → get_call_by_player_idx p' j ≡ get_call_by_player_idx blinds j)
unfolding get_call
bet-call_example = bet-call blinds 0 (omega arith)

move_button-positions_example :
    (d' : GameData) × (move_button seated ≡ done d')
    × (d'.big_blind_idx ≡ (seated.big_blind_idx + 1) % length seated.players)
    × ((d'.small_blind_idx + 1) % length seated.players ≡ d'.big_blind_idx)
    × (d'.starting_action_idx ≡ (d'.big_blind_idx + 1) % length seated.players)
    × (d'.small_blind_idx < length seated.players)
    × (d'.big_blind_idx < length seated.players)
    × (d'.starting_action_idx < length seated.players)
unfolding seated seat_players
move_button-positions_example = move_button-positions seated (omega arith)

-- It is Ann's turn, and she has 5 more to pay.
abbrev turn_of_ann : GameData
turn_of_ann = record seated { pot = blinds; next_action_idx = some 0; num_players_active = 2 }

abbrev options : Option (List Action)
options = some (Action.call 5 ∷ Action.fold ∷ [])

abbrev refused : Acted
refused = record {
  game_data = turn_of_ann;
  options = options;
  result = err (invalid_action Action.check);
}

act-err_example : (refused.game_data ≡ turn_of_ann) × (refused.options ≡ options)
unfolding act
act-err_example =
    act-err Action.check options turn_of_ann refused (invalid_action Action.check) refl refl

abbrev seat : User → ℕ → List Card → Player
seat u i cards = record {
  user = u;
  state = PlayerState.wait;
  cards = cards;
  showing = false;
  seat_idx = i;
}

abbrev two_seats : List Card → List Player
two_seats cards =
    seat (record { name = "ann"; money = 200 }) 0 (ace Suit.club ∷ [])
    ∷ seat (record { name = "bob"; money = 200 }) 1 cards
    ∷ []

-- Ann's view is the same whether Bob holds an ace or a king.
as_view-AreAlike_example :
    as_view "ann" (record turn_of_ann { players = two_seats (ace Suit.heart ∷ []) })
    ≡ as_view "ann" (record turn_of_ann {
      deck = [];
      players = two_seats (record { value = 13; suit = Suit.heart } ∷ []);
    })
as_view-AreAlike_example =
    as_view-AreAlike "ann" (record turn_of_ann { players = two_seats (ace Suit.heart ∷ []) }) []
      (two_seats (record { value = 13; suit = Suit.heart } ∷ []))
      ((refl, refl, refl, λ e. refl), ((refl, refl, refl, λ e. cc), tt))

get_next_action_idx-Waits_example :
    (j : ℕ) × (get_next_action_idx false turn_of_ann ≡ done (some j)) × Waits turn_of_ann.players j
unfolding seated seat_players is_end_of_round
get_next_action_idx-Waits_example =
    get_next_action_idx-Waits turn_of_ann false 0 1 refl refl
      (seat (record { name = "bob"; money = 200 }) 1 [], refl, refl)

-- Two players with a pair of threes and one with a better high card.
abbrev showdown : List (List SubHand)
showdown =
    (record { rank = Rank.one_pair; values = 3 ∷ [] } ∷ [])
    ∷ (record { rank = Rank.high_card; values = 14 ∷ [] } ∷ [])
    ∷ (record { rank = Rank.one_pair; values = 3 ∷ [] } ∷ [])
    ∷ []

argmax-best_example :
    (argmax showdown ≡ indices_of 0 (best_hand floor_hand showdown) showdown)
    × ((j : ℕ) (hand : List SubHand)
        → get_elem? showdown j ≡ some hand
        → cmp_hand hand (best_hand floor_hand showdown) ≢ Ordering.gt)
argmax-best_example = argmax-best showdown
