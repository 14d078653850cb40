-- ===== src/Tests.antt =====
-- Runs of the model at concrete games, and the theorems at work in them.
pub mod Money
pub mod Users
pub mod Rules
pub mod Net
pub mod Bots
pub mod Codecs
pub mod Clients
pub mod Sockets
pub mod GameThread
use private_poker.Prelude.{
  ℕ, zero, suc, ◌+◌, ◌≡◌, ◌≤◌, ◌<◌, ◌≢◌, refl, sym, ap, Bool, subst, inl, inr, Outcome-cases, List,
  [], ◌∷◌, Option, some, none, arith, Outcome, done, panic, length, get_elem?, u32_mod, false, true,
}
use private_poker.Entities.{Card, Suit, Action, Rank, Username}
use private_poker.Game.{GameData, GameSettings, new_game_data, default_settings, game_data_of}
use private_poker.Game.Users.{new_user, waitlist_user}
use private_poker.Game.Queries.{get_num_users, contains_waitlister}
use private_poker.Game.Seats.{seat_players}
use private_poker.Game.Blinds.{collect_blinds, move_button}
use private_poker.Game.Deal.{deal}
use private_poker.Game.Lobby
use private_poker.Functional.Deck.{new_deck}
use private_poker.Game.Census.{IsCensus, census, name_weight}
use private_poker.Game.Census.Invariant.{new_user-IsCensus, waitlist_user-IsCensus}
use private_poker.Game.Census.Phases.{seat_players-IsCensus}
use private_poker.Game.Money.{IsBalanced, IsSmall, invested}
use private_poker.Game.Money.Reach.{Move-IsBalanced}
use private_poker.Game.Census.Reach.{Reach-IsCensus}
use private_poker.Game.Phases
use private_poker.Game.Phases.{PokerState, game_data, of_settings}
use private_poker.Game.Phases.Step.{step, phase_transition}
use private_poker.Game.Phases.Requests
use private_poker.Game.Phases.Requests.{get_action_options, init_start}
use private_poker.Game.Phases.Reach.{
  Reach, here, next, asks, steps, Request, request, Reach-BoardFits, Reach-phase_transition,
}
use private_poker.Game.Phases.Street.{BoardFits}

-- A shuffle that leaves the deck as it is.
abbrev pub keep : List Card → List Card
keep deck = deck

abbrev pub or_else {ℓ} : {A : Type ℓ} → Outcome A → A → A
or_else (done a) b = a
or_else panic b = b

pub new_game_data-IsCensus : IsCensus new_game_data
unfolding census new_game_data
new_game_data-IsCensus = record { is_map = tt; is_keyed = tt; once = λ k. omega arith }

-- Ann and Bob join and wait for seats.
unfoldable pub joined : GameData
unfolding new_user new_game_data
joined = (new_user "bob" (new_user "ann" new_game_data).0).0

unfoldable pub table : GameData
unfolding joined waitlist_user
table = (waitlist_user "bob" (waitlist_user "ann" joined).0).0

unfoldable pub seated : GameData
unfolding table seat_players
seated = seat_players table

pub table-IsCensus : IsCensus table
unfolding table joined
table-IsCensus =
    let one = new_user-IsCensus "ann" new_game_data new_game_data-IsCensus in
    let two = new_user-IsCensus "bob" _ one in
    waitlist_user-IsCensus "bob" _ (waitlist_user-IsCensus "ann" _ two)

pub seated-IsCensus : IsCensus seated
unfolding seated
seated-IsCensus = seat_players-IsCensus table table-IsCensus

-- The state once the blinds are paid.
unfoldable pub blinds_paid : PokerState
unfolding seated step
blinds_paid = or_else (step keep (PokerState.collect_blinds seated)) Phases.new

pub seated-IsSmall : IsSmall seated
unfolding seated census get_num_users
seated-IsSmall = record { cash_small = omega arith; dues_small = omega arith }

pub seated-IsBalanced : IsBalanced seated
unfolding seated census get_num_users
seated-IsBalanced = refl

Move-IsBalanced_example : IsBalanced (game_data blinds_paid)
unfolding blinds_paid step seated collect_blinds
Move-IsBalanced_example =
    Move-IsBalanced {s = PokerState.collect_blinds seated} {t = blinds_paid} (steps keep refl)
      seated-IsCensus seated-IsSmall seated-IsBalanced
      (λ d e. ap (λ s. invested (game_data s).pot.investments) (sym e))

-- The steps and requests up to the first round of betting.
unfoldable run : PokerState → PokerState
unfolding step
run s = or_else (step keep s) s

unfoldable waiting : PokerState
unfolding of_settings Requests.new_user Requests.waitlist_user init_start
waiting = request Request.start "ann" (
    request Request.wait "bob" (
      request Request.wait "ann"
        (request Request.join "bob" (request Request.join "ann" (of_settings default_settings)))))

unfoldable betting : PokerState
unfolding run waiting
betting = run (run (run (run (run waiting))))

waiting-Reach : Reach (of_settings default_settings) waiting
unfolding waiting
waiting-Reach =
    next
      (next
        (next (next (next here (asks Request.join "ann")) (asks Request.join "bob"))
          (asks Request.wait "ann"))
        (asks Request.wait "bob"))
      (asks Request.start "ann")

run-Reach : (s t : PokerState) → Reach s t → Reach s (run t)
unfolding run
run-Reach s t r = elim (Outcome-cases (step keep t)) [
  | inl e ↦ rw e r
  | inr (t', e) ↦ rw e (next r (steps keep e))
]

betting-Reach : Reach (of_settings default_settings) betting
unfolding betting
betting-Reach =
    run-Reach _ _ (run-Reach _ _ (run-Reach _ _ (run-Reach _ _ (run-Reach _ _ waiting-Reach))))

Reach-IsCensus_example : IsCensus (game_data betting)
Reach-IsCensus_example = Reach-IsCensus default_settings betting-Reach

Reach-BoardFits_example : BoardFits betting
Reach-BoardFits_example = Reach-BoardFits default_settings betting-Reach

abbrev is_betting : PokerState → Bool
is_betting (PokerState.take_action d options) = true
is_betting _ = false

is_betting-take_action :
    (s : PokerState)
    → is_betting s ≡ true
    → s ≡ PokerState.take_action (game_data s) (get_action_options s)
unfolding get_action_options
is_betting-take_action (PokerState.take_action d options) e = refl
is_betting-take_action (PokerState.lobby d l) e = cc
is_betting-take_action (PokerState.seat_players d) e = cc
is_betting-take_action (PokerState.move_button d) e = cc
is_betting-take_action (PokerState.collect_blinds d) e = cc
is_betting-take_action (PokerState.deal d) e = cc
is_betting-take_action (PokerState.flop d) e = cc
is_betting-take_action (PokerState.turn d) e = cc
is_betting-take_action (PokerState.river d) e = cc
is_betting-take_action (PokerState.show_hands d c) e = cc
is_betting-take_action (PokerState.distribute_pot d c) e = cc
is_betting-take_action (PokerState.remove_players d) e = cc
is_betting-take_action (PokerState.divide_donations d) e = cc
is_betting-take_action (PokerState.update_blinds d) e = cc
is_betting-take_action (PokerState.boot_players d) e = cc

betting-is_betting : is_betting betting ≡ true
unfolding betting run waiting step of_settings default_settings Requests.new_user
    Requests.waitlist_user init_start contains_waitlister waitlist_user new_user
    Lobby.is_ready_to_start Lobby.init_start move_button seat_players collect_blinds deal new_deck
betting-is_betting = refl

betting-take_action :
    betting ≡ PokerState.take_action (game_data betting) (get_action_options betting)
betting-take_action = is_betting-take_action betting betting-is_betting

Reach-phase_transition_example :
    (s : PokerState) × (phase_transition (game_data betting) ≡ done s) × BoardFits s
Reach-phase_transition_example =
    Reach-phase_transition default_settings (game_data betting) (get_action_options betting)
      (subst (Reach (of_settings default_settings)) betting-take_action betting-Reach)
