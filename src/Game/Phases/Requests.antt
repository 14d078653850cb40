-- ===== src/Game/Phases/Requests.antt =====
-- The users' requests to a `PokerState` in private_poker/src/game.rs: each goes to the phase, where
-- the phase allows it.
use private_poker.Prelude.{
  Bool, true, false, ◌||◌, List, Option, none, if◌then◌else◌, Outcome, done, ◌>>=◌,
}
use private_poker.Entities.{Action, Username}
use private_poker.Game.{
  GameData, Result, ok, err, cannot_start_game, game_already_starting, game_already_in_progress,
  cannot_show_hand, out_of_turn_action,
}
use private_poker.Game.Lobby
use private_poker.Game.Lobby.{Lobby}
use private_poker.Game.Users
use private_poker.Game.Users.{Managed}
use private_poker.Game.Views
use private_poker.Game.Views.{GameViews}
use private_poker.Game.Queries
use private_poker.Game.Queries.{
  contains_waitlister, contains_player, is_ready_for_next_phase, is_turn,
}
use private_poker.Game.Betting.{act, Acted}
use private_poker.Game.Phases.{PokerState, game_data}

-- The state after a request, and what the request returns.
abbrev pub Replied : Type 0 → Type 0
Replied A = PokerState × Result A

-- The phase with other data.
abbrev pub with_data : PokerState → GameData → PokerState
with_data (PokerState.lobby _ l) d = PokerState.lobby d l
with_data (PokerState.seat_players _) d = PokerState.seat_players d
with_data (PokerState.move_button _) d = PokerState.move_button d
with_data (PokerState.collect_blinds _) d = PokerState.collect_blinds d
with_data (PokerState.deal _) d = PokerState.deal d
with_data (PokerState.take_action _ o) d = PokerState.take_action d o
with_data (PokerState.flop _) d = PokerState.flop d
with_data (PokerState.turn _) d = PokerState.turn d
with_data (PokerState.river _) d = PokerState.river d
with_data (PokerState.show_hands _ c) d = PokerState.show_hands d c
with_data (PokerState.distribute_pot _ c) d = PokerState.distribute_pot d c
with_data (PokerState.remove_players _) d = PokerState.remove_players d
with_data (PokerState.divide_donations _) d = PokerState.divide_donations d
with_data (PokerState.update_blinds _) d = PokerState.update_blinds d
with_data (PokerState.boot_players _) d = PokerState.boot_players d

-- Whether a hand is played, so that leaving players are queued: the two lists of types that the
-- macros are invoked with.
abbrev pub is_queued : PokerState → Bool
is_queued (PokerState.lobby _ _) = false
is_queued (PokerState.seat_players _) = false
is_queued (PokerState.remove_players _) = false
is_queued (PokerState.divide_donations _) = false
is_queued (PokerState.update_blinds _) = false
is_queued (PokerState.boot_players _) = false
is_queued _ = true

-- `game.name(username)?; Ok(())`.
abbrev pub forget : Result Bool → Result (Unit {0})
forget (ok _) = ok tt
forget (err e) = err e

abbrev pub reply : PokerState → Managed → Replied (Unit {0})
reply s r = (with_data s r.0, forget r.1)

unfoldable pub new_user : Username → PokerState → Replied (Unit {0})
new_user username s = reply s (Users.new_user username (game_data s))

unfoldable pub waitlist_user : Username → PokerState → Replied (Unit {0})
waitlist_user username s = reply s (Users.waitlist_user username (game_data s))

unfoldable pub remove_user : Username → PokerState → Replied (Unit {0})
remove_user username s = reply s (
    if is_queued s
    then Users.queue_remove_user username (game_data s)
    else Users.remove_user username (game_data s))

unfoldable pub spectate_user : Username → PokerState → Replied (Unit {0})
spectate_user username s = reply s (
    if is_queued s
    then Users.queue_spectate_user username (game_data s)
    else Users.spectate_user username (game_data s))

abbrev pub started : GameData → Lobby × Result (Unit {0}) → Replied (Unit {0})
started d r = (PokerState.lobby d r.0, r.1)

unfoldable pub init_start : Username → PokerState → Replied (Unit {0})
init_start username (PokerState.lobby d l) =
    if contains_waitlister username d || contains_player username d
    then started d (Lobby.init_start d l)
    else (PokerState.lobby d l, err cannot_start_game)
init_start username (PokerState.seat_players d) =
    (PokerState.seat_players d, err game_already_starting)
init_start username s = (s, err game_already_in_progress)

abbrev pub shown : PokerState → GameData × Result (Unit {0}) → Replied (Unit {0})
shown s r = (with_data s r.0, r.1)

-- `DivideDonations` is not among the phases that allow it.
unfoldable pub show_hand : Username → PokerState → Replied (Unit {0})
show_hand username (PokerState.show_hands d c) =
    shown (PokerState.show_hands d c) (Users.show_hand username d)
show_hand username (PokerState.distribute_pot d c) =
    shown (PokerState.distribute_pot d c) (Users.show_hand username d)
show_hand username (PokerState.remove_players d) =
    shown (PokerState.remove_players d) (Users.show_hand username d)
show_hand username (PokerState.update_blinds d) =
    shown (PokerState.update_blinds d) (Users.show_hand username d)
show_hand username s = (s, err cannot_show_hand)

-- The turn is tested only if the round of betting goes on.
abbrev pub may_act : Username → GameData → Outcome Bool
may_act username d = if is_ready_for_next_phase d then done false else is_turn username d

abbrev pub acted : Acted → Replied Action
acted a = (PokerState.take_action a.game_data a.options, a.result)

unfoldable pub take_action : Username → Action → PokerState → Outcome (Replied Action)
take_action username action (PokerState.take_action d options) = may_act username d >>= λ allowed.
    let done_action = act action options d >>= λ a. done (acted a) in
    if allowed then done_action else done (PokerState.take_action d options, err out_of_turn_action)
take_action username action s = done (s, err out_of_turn_action)

unfoldable pub get_action_options : PokerState → Option (List Action)
get_action_options (PokerState.take_action d options) = options
get_action_options _ = none

unfoldable pub get_next_action_username : PokerState → Outcome (Option Username)
get_next_action_username (PokerState.take_action d _) = Queries.get_next_action_username d
get_next_action_username _ = done none

unfoldable pub get_views : PokerState → GameViews
get_views s = Views.get_views (game_data s)
