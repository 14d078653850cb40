-- ===== src/Game/Queries.antt =====
-- The methods of `Game<T>` in private_poker/src/game.rs that read the data, and those that set up a
-- round of betting.
pub mod Waiting
use private_poker.Prelude.{
  ℕ, zero, suc, ◌+◌, ◌%◌, Bool, true, false, ◌&&◌, ◌||◌, List, [], ◌∷◌, ◌++◌, map, Option, none,
  some, min, ltb, leb, ◌==◌, str_eq, if◌then◌else◌, length, get_elem?, any, Outcome, done, panic,
  ◌>>=◌, expect,
}
use private_poker.Entities.{Action, PlayerState, is_fold, is_wait, Username}
use private_poker.Entities.Player.{Player}
use private_poker.Entities.NameMap.{contains_key}
use private_poker.Entities.Pot
use private_poker.Entities.Pot.{Investments}
use private_poker.Game.{GameData}

unfoldable pub contains_player : Username → GameData → Bool
contains_player username d = any (λ p. str_eq p.user.name username) d.players

unfoldable pub contains_spectator : Username → GameData → Bool
contains_spectator username d = contains_key username d.spectators

unfoldable pub contains_waitlister : Username → GameData → Bool
contains_waitlister username d = any (λ u. str_eq u.name username) d.waitlist

-- The chain of the waitlist and the players' users.
unfoldable pub contains_user : Username → GameData → Bool
contains_user username d =
    contains_key username d.spectators
    || any (λ u. str_eq u.name username) (d.waitlist ++ map (λ p. p.user) d.players)

unfoldable pub get_num_community_cards : GameData → ℕ
get_num_community_cards d = length d.board

unfoldable pub get_num_players : GameData → ℕ
get_num_players d = length d.players

unfoldable pub get_num_potential_players : GameData → ℕ
get_num_potential_players d = min (length d.players + length d.waitlist) d.settings.max_players

unfoldable pub get_num_users : GameData → ℕ
get_num_users d = length d.spectators + length d.waitlist + length d.players

unfoldable pub is_end_of_round : GameData → Bool
is_end_of_round d = d.num_players_active == d.num_players_called

unfoldable pub is_pot_empty : GameData → Bool
is_pot_empty d = Pot.is_empty d.pot

unfoldable pub is_ready_for_showdown : GameData → Bool
is_ready_for_showdown d = elim d.next_action_idx [
  | some action_idx ↦
      leb d.num_players_active 1 && (Pot.get_call_by_player_idx d.pot action_idx == 0)
  | none ↦ leb d.num_players_active 1
]

unfoldable pub is_ready_for_next_phase : GameData → Bool
unfolding is_end_of_round is_ready_for_showdown
is_ready_for_next_phase d = is_end_of_round d || is_ready_for_showdown d

-- `cycle().skip(k).find(..)`: the index of the first waiting player from the k-th of the endless
-- cycle on. With `fuel` positions left; a whole round without one means that the search never ends.
unfoldable pub find_waiting : ℕ → List Player → ℕ → Outcome ℕ
find_waiting zero players k = panic
find_waiting (suc fuel) players k =
    let i = k % length players in
    let rest = find_waiting fuel players (k + 1) in
    expect (get_elem? players i) >>= λ p. if is_wait p.state then done i else rest

-- The cycle of no players is empty.
unfoldable pub next_waiting : List Player → ℕ → Outcome (Option ℕ)
unfolding find_waiting
next_waiting [] k = done none
next_waiting (p ∷ players) k =
    find_waiting (length (p ∷ players)) (p ∷ players) k >>= λ i. done (some i)

unfoldable pub get_next_action_idx : Bool → GameData → Outcome (Option ℕ)
unfolding is_end_of_round next_waiting
get_next_action_idx new_phase d = if is_end_of_round d then done none else elim d.next_action_idx [
  | none ↦ done none
  | some action_idx ↦ next_waiting d.players (action_idx + (if new_phase then 0 else 1))
]

-- The options as a list, in which no variant comes twice: a `HashSet<Action>` of them.
unfoldable pub action_options : ℕ → ℕ → ℕ → ℕ → List Action
action_options active money call raise =
    (if ltb 1 active || leb money call then Action.all_in ∷ [] else [])
    ++ (if ltb 0 call && ltb call money
        then Action.call call ∷ []
        else if call == 0
        then Action.check ∷ []
        else [])
    ++ (if ltb 1 active && ltb raise money then Action.raise raise ∷ [] else [])
    ++ Action.fold ∷ []

unfoldable pub get_next_action_options : GameData → Outcome (Option (List Action))
unfolding is_ready_for_next_phase action_options
get_next_action_options d =
    if is_ready_for_next_phase d then done none else elim d.next_action_idx [
      | none ↦ done none
      | some action_idx ↦ expect (get_elem? d.players action_idx) >>= λ p. done (
          some (
            action_options d.num_players_active p.user.money
              (Pot.get_call_by_player_idx d.pot action_idx)
              (Pot.get_min_raise_by_player_idx d.pot action_idx)))
    ]

unfoldable pub get_next_action_username : GameData → Outcome (Option Username)
get_next_action_username d = elim d.next_action_idx [
  | none ↦ done none
  | some action_idx ↦ expect (get_elem? d.players action_idx) >>= λ p. done (some p.user.name)
]

unfoldable pub is_turn : Username → GameData → Outcome Bool
is_turn username d = elim d.next_action_idx [
  | none ↦ done false
  | some action_idx ↦
      expect (get_elem? d.players action_idx) >>= λ p. done (str_eq p.user.name username)
]

-- The investments of the players that have not folded.
unfoldable pub open_investments : List Player → Investments → Outcome (List ℕ)
open_investments players [] = done []
open_investments players ((i, investment) ∷ m) = expect (get_elem? players i) >>= λ p.
    open_investments players m >>= λ rest.
    done (if is_fold p.state then rest else investment ∷ rest)

unfoldable pub distinct : List ℕ → List ℕ
distinct [] = []
distinct (x ∷ xs) = let rest = distinct xs in if any (λ y. x == y) xs then rest else x ∷ rest

unfoldable pub get_num_pots : GameData → Outcome ℕ
unfolding open_investments distinct
get_num_pots d = open_investments d.players d.pot.investments >>= λ investments.
    done (length (distinct investments))

abbrev pub wait_again : PlayerState → PlayerState
wait_again PlayerState.call = PlayerState.wait
wait_again PlayerState.check = PlayerState.wait
wait_again PlayerState.raise = PlayerState.wait
wait_again s = s

abbrev pub reset_waiting : Player → Player
reset_waiting p = record p { state = wait_again p.state }

unfoldable pub prepare_for_next_phase : GameData → Outcome (GameData × Option (List Action))
unfolding get_next_action_idx get_next_action_options
prepare_for_next_phase d =
    let d' = record d {
      num_players_called = 0;
      players = map reset_waiting d.players;
      next_action_idx = some d.starting_action_idx;
    } in
    get_next_action_idx true d' >>= λ next.
    let d'' = record d' { next_action_idx = next } in
    get_next_action_options d'' >>= λ options. done (d'', options)
