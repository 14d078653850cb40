-- ===== src/Net/Server/GameThread/Replies.antt =====
-- What a request to the game that private_poker/src/game.rs accepts has done, in any phase.
use private_poker.Prelude.{
  ◌≡◌, refl, sym, ap, subst, Bool, true, false, Bool-cases, inl, inr, ◌||◌, if◌then◌else◌,
}
use private_poker.Entities.{Username}
use private_poker.Game.{GameData, Result}
use private_poker.Game.Lobby
use private_poker.Game.Lobby.{Lobby}
use private_poker.Game.Users
use private_poker.Game.Users.{Managed}
use private_poker.Game.Queries.{contains_user, contains_waitlister, contains_player}
use private_poker.Game.Census.{IsCensus, census, name_weight}
use private_poker.Game.Census.Reach.{game_data-with_data}
use private_poker.Game.Census.Removal.{Removes, remove_user-Removes}
use private_poker.Game.Census.Joined.{
  Accepted, Plays, Watches, Leaves, Shows, new_user-contains, waitlist_user-Plays,
  spectate_user-Watches, queue_spectate_user-Watches, queue_remove_user-Leaves, show_hand-Shows,
}
use private_poker.Game.Phases.{PokerState, game_data}
use private_poker.Game.Phases.Requests.{
  reply, is_queued, new_user, waitlist_user, remove_user, spectate_user, init_start, show_hand,
  started, shown,
}

-- What holds of the state where a reply accepts the request.
abbrev pub Then {ℓ} : {A : Type ℓ} → (PokerState → Type 0) → PokerState × Result A → Type 0
Then P (s', Result.ok _) = P s'
Then P (s', Result.err _) = Unit

reply-Then :
    (P : GameData → Type 0) (s : PokerState) (r : Managed)
    → Accepted P r
    → Then (λ s'. P (game_data s')) (reply s r)
reply-Then P s (d, Result.ok b) h = subst P (sym (game_data-with_data s d)) h
reply-Then P s (d, Result.err e) h = tt

Removes-Accepted :
    (name : Username) (d : GameData) (r : Managed)
    → Removes name d r
    → Accepted (λ d'. census (name_weight name) d' ≡ 0) r
Removes-Accepted name d (d', Result.ok b) (there, gone, others) = gone
Removes-Accepted name d (d', Result.err e) h = tt

module _ (name : Username) (s : PokerState) where
  pub plays : IsCensus (game_data s) → Then (λ s'. Plays name (game_data s')) (waitlist_user name s)
  unfolding waitlist_user
  plays c =
      reply-Then (Plays name) s (Users.waitlist_user name (game_data s))
        (waitlist_user-Plays name (game_data s) c)

  pub watches : Then (λ s'. Watches name (game_data s')) (spectate_user name s)
  unfolding spectate_user
  watches = elim (Bool-cases (is_queued s)) [
    | inl queued ↦ rw queued (
        reply-Then (Watches name) s (Users.queue_spectate_user name (game_data s))
          (queue_spectate_user-Watches name (game_data s)))
    | inr at_once ↦ rw at_once (
        reply-Then (Watches name) s (Users.spectate_user name (game_data s))
          (spectate_user-Watches name (game_data s)))
  ]

  pub joins : Then (λ s'. contains_user name (game_data s') ≡ true) (new_user name s)
  unfolding new_user
  joins =
      reply-Then (λ d. contains_user name d ≡ true) s (Users.new_user name (game_data s))
        (new_user-contains name (game_data s))

  abbrev pub Left : GameData → Type 0
  Left d' = Leaves name d' × (is_queued s ≡ false → census (name_weight name) d' ≡ 0)

  queued-Left : (r : Managed) → is_queued s ≡ true → Accepted (Leaves name) r → Accepted Left r
  queued-Left (d', Result.ok b) e h = (h, λ e'. cc)
  queued-Left (d', Result.err b) e h = tt

  at_once-Left :
      (r : Managed) → Accepted (λ d'. census (name_weight name) d' ≡ 0) r → Accepted Left r
  at_once-Left (d', Result.ok b) h = (inr h, λ e'. h)
  at_once-Left (d', Result.err b) h = tt

  pub leaves : IsCensus (game_data s) → Then (λ s'. Left (game_data s')) (remove_user name s)
  unfolding remove_user
  leaves c = elim (Bool-cases (is_queued s)) [
    | inl queued ↦
        let r = Users.queue_remove_user name (game_data s) in
        subst
          (λ b.
            Then (λ s'. Left (game_data s'))
              (reply s (if b then r else Users.remove_user name (game_data s))))
          (sym queued)
          (reply-Then Left s r
            (queued-Left r queued (queue_remove_user-Leaves name (game_data s) c)))
    | inr at_once ↦
        let r = Users.remove_user name (game_data s) in
        subst
          (λ b.
            Then (λ s'. Left (game_data s'))
              (reply s (if b then Users.queue_remove_user name (game_data s) else r)))
          (sym at_once)
          (reply-Then Left s r (
            at_once-Left r
              (Removes-Accepted name (game_data s) r (remove_user-Removes name (game_data s) c))))
  ]

shown-Then :
    (name : Username) (s : PokerState) (r : GameData × Result (Unit {0}))
    → Accepted (Shows name) r
    → Then (λ s'. Shows name (game_data s')) (shown s r)
shown-Then name s (d, Result.ok b) h = subst (Shows name) (sym (game_data-with_data s d)) h
shown-Then name s (d, Result.err e) h = tt

pub shows :
    (name : Username) (s : PokerState) → Then (λ s'. Shows name (game_data s')) (show_hand name s)
unfolding show_hand
shows name (PokerState.show_hands d c) =
    shown-Then name (PokerState.show_hands d c) (Users.show_hand name d) (show_hand-Shows name d)
shows name (PokerState.distribute_pot d c) =
    shown-Then name (PokerState.distribute_pot d c) (Users.show_hand name d)
      (show_hand-Shows name d)
shows name (PokerState.remove_players d) =
    shown-Then name (PokerState.remove_players d) (Users.show_hand name d) (show_hand-Shows name d)
shows name (PokerState.update_blinds d) =
    shown-Then name (PokerState.update_blinds d) (Users.show_hand name d) (show_hand-Shows name d)
shows name (PokerState.lobby d l) = tt
shows name (PokerState.seat_players d) = tt
shows name (PokerState.move_button d) = tt
shows name (PokerState.collect_blinds d) = tt
shows name (PokerState.deal d) = tt
shows name (PokerState.take_action d _) = tt
shows name (PokerState.flop d) = tt
shows name (PokerState.turn d) = tt
shows name (PokerState.river d) = tt
shows name (PokerState.divide_donations d) = tt
shows name (PokerState.boot_players d) = tt

abbrev pub Starts : Username → PokerState → Type 0
Starts name s' =
    (d : GameData) × (s' ≡ PokerState.lobby d (record { start_game = true }))
    × ((contains_waitlister name d || contains_player name d) ≡ true)

start-started :
    (b b' : Bool) (l : Lobby) (u : Unit {0})
    → (Lobby.start b b' l).1 ≡ Result.ok u
    → (Lobby.start b b' l).0 ≡ record { start_game = true }
start-started false false l u e = cc
start-started false true l u e = refl
start-started true b' l u e = cc

init_start-started :
    (d : GameData) (l : Lobby)
    → (u : Unit {0}) → (Lobby.init_start d l).1 ≡ Result.ok u
    → (Lobby.init_start d l).0 ≡ record { start_game = true }
unfolding Lobby.init_start
init_start-started d l u e = start-started l.start_game _ l u e

started-Then :
    (name : Username) (d : GameData) (r : Lobby × Result (Unit {0}))
    → (contains_waitlister name d || contains_player name d) ≡ true
    → ((u : Unit {0}) → r.1 ≡ Result.ok u → r.0 ≡ record { start_game = true })
    → Then (Starts name) (started d r)
started-Then name d (l, Result.ok u) there f = (d, ap (PokerState.lobby d) (f u refl), there)
started-Then name d (l, Result.err e) there f = tt

pub starts : (name : Username) (s : PokerState) → Then (Starts name) (init_start name s)
unfolding init_start
starts name (PokerState.lobby d l) =
    elim (Bool-cases (contains_waitlister name d || contains_player name d)) [
      | inl there ↦
          rw there (started-Then name d (Lobby.init_start d l) there (init_start-started d l))
      | inr nobody ↦ rw nobody tt
    ]
starts name (PokerState.seat_players d) = tt
starts name (PokerState.move_button d) = tt
starts name (PokerState.collect_blinds d) = tt
starts name (PokerState.deal d) = tt
starts name (PokerState.take_action d _) = tt
starts name (PokerState.flop d) = tt
starts name (PokerState.turn d) = tt
starts name (PokerState.river d) = tt
starts name (PokerState.show_hands d _) = tt
starts name (PokerState.distribute_pot d _) = tt
starts name (PokerState.remove_players d) = tt
starts name (PokerState.divide_donations d) = tt
starts name (PokerState.update_blinds d) = tt
starts name (PokerState.boot_players d) = tt
