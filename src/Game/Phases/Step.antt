-- ===== src/Game/Phases/Step.antt =====
-- `PokerState::step` of private_poker/src/game.rs.
use private_poker.Prelude.{
  ℕ, zero, suc, List, [], Option, if◌then◌else◌, leb, Outcome, done, panic, ◌>>=◌,
}
use private_poker.Entities.{Card, Action}
use private_poker.Game.{GameData, Result, ok, err}
use private_poker.Game.Lobby
use private_poker.Game.Lobby.{Lobby}
use private_poker.Game.Seats
use private_poker.Game.Blinds
use private_poker.Game.Deal
use private_poker.Game.Betting.{act, Acted}
use private_poker.Game.Showdown
use private_poker.Game.Showdown.{HandEvalCache}
use private_poker.Game.Cleanup
use private_poker.Game.Queries.{
  is_ready_for_next_phase, is_ready_for_showdown, get_num_potential_players,
  get_num_community_cards, get_num_pots, prepare_for_next_phase,
}
use private_poker.Game.Phases.{PokerState}

-- By the number of cards on the board; any number but 0, 3, 4 and 5 is `unreachable!`.
abbrev pub next_street : ℕ → GameData → Outcome PokerState
next_street zero d = done (PokerState.flop d)
next_street (suc (suc (suc zero))) d = done (PokerState.turn d)
next_street (suc (suc (suc (suc zero)))) d = done (PokerState.river d)
next_street (suc (suc (suc (suc (suc zero))))) d = done (PokerState.show_hands d [])
next_street _ d = panic

unfoldable pub phase_transition : GameData → Outcome PokerState
unfolding get_num_community_cards
phase_transition d = next_street (get_num_community_cards d) d

-- After the forced fold, which `expect` wants to succeed.
abbrev pub after_fold : Result Action → Acted → Outcome PokerState
after_fold (err e) a = panic
after_fold (ok _) a =
    if is_ready_for_next_phase a.game_data
    then phase_transition a.game_data
    else done (PokerState.take_action a.game_data a.options)

-- A round of betting starts on the street's board.
unfoldable pub start_betting : GameData → Outcome PokerState
unfolding prepare_for_next_phase
start_betting d = prepare_for_next_phase d >>= λ r. done (PokerState.take_action r.0 r.1)

unfoldable pub step_lobby : GameData → Lobby → PokerState
step_lobby d l =
    if Lobby.is_ready_to_start d l then PokerState.seat_players d else PokerState.lobby d l

unfoldable pub step_seat_players : GameData → PokerState
step_seat_players d =
    if leb 2 (get_num_potential_players d)
    then PokerState.move_button (Seats.seat_players d)
    else PokerState.lobby d Lobby.new

unfoldable pub step_take_action : GameData → Option (List Action) → Outcome PokerState
unfolding phase_transition
step_take_action d options =
    if is_ready_for_next_phase d
    then phase_transition d
    else (act Action.fold options d >>= λ a. after_fold a.result a)

unfoldable pub step_flop : GameData → Outcome PokerState
unfolding start_betting
step_flop d = Deal.flop d >>= λ d'.
    if is_ready_for_showdown d then done (PokerState.turn d') else start_betting d'

unfoldable pub step_turn : GameData → Outcome PokerState
unfolding start_betting
step_turn d = Deal.turn d >>= λ d'.
    if is_ready_for_showdown d then done (PokerState.river d') else start_betting d'

unfoldable pub step_river : GameData → Outcome PokerState
unfolding start_betting
step_river d = Deal.river d >>= λ d'.
    if is_ready_for_showdown d then done (PokerState.show_hands d' []) else start_betting d'

-- With another pot left the hands are shown again; both ways distribute this one.
unfoldable pub step_distribute_pot : GameData → HandEvalCache → Outcome PokerState
step_distribute_pot d cache = get_num_pots d >>= λ num_pots. Showdown.distribute d cache >>= λ r.
    done (
      if leb 2 num_pots
      then PokerState.show_hands r.0 r.1
      else PokerState.remove_players (record (r.0) { num_players_active = 0 }))

-- The shuffle of the deck is the argument.
unfoldable pub step : (List Card → List Card) → PokerState → Outcome PokerState
unfolding step_lobby step_seat_players step_take_action step_flop step_turn step_river
    step_distribute_pot
step shuffle (PokerState.lobby d l) = done (step_lobby d l)
step shuffle (PokerState.seat_players d) = done (step_seat_players d)
step shuffle (PokerState.move_button d) =
    Blinds.move_button d >>= λ d'. done (PokerState.collect_blinds d')
step shuffle (PokerState.collect_blinds d) =
    Blinds.collect_blinds d >>= λ d'. done (PokerState.deal d')
step shuffle (PokerState.deal d) =
    Deal.deal shuffle d >>= λ r. done (PokerState.take_action r.0 r.1)
step shuffle (PokerState.take_action d options) = step_take_action d options
step shuffle (PokerState.flop d) = step_flop d
step shuffle (PokerState.turn d) = step_turn d
step shuffle (PokerState.river d) = step_river d
step shuffle (PokerState.show_hands d cache) =
    Showdown.show_hands d >>= λ d'. done (PokerState.distribute_pot d' cache)
step shuffle (PokerState.distribute_pot d cache) = step_distribute_pot d cache
step shuffle (PokerState.remove_players d) =
    done (PokerState.divide_donations (Cleanup.remove_players d))
step shuffle (PokerState.divide_donations d) =
    Cleanup.divide_donations d >>= λ d'. done (PokerState.update_blinds d')
step shuffle (PokerState.update_blinds d) =
    Cleanup.update_blinds d >>= λ d'. done (PokerState.boot_players d')
step shuffle (PokerState.boot_players d) =
    done (PokerState.lobby (Cleanup.boot_players d) Lobby.new)
