-- ===== src/Game/Money/Seats.antt =====
-- Seating and booting move users with their money and leave the table's money alone.
use private_poker.Prelude.{ℕ, ◌≡◌, refl, ◌∙◌, List, [], ◌∷◌, map, arith}
use private_poker.Entities.{User, Usd}
use private_poker.Entities.Player.{Player}
use private_poker.Entities.NameSet.{NameSet}
use private_poker.Game.{GameData}
use private_poker.Game.Seats.{seat_user, seat_loop, seat_players}
use private_poker.Game.Users.{spectate_user}
use private_poker.Game.Cleanup.{
  queue_player, queue_broke, reset_rich, spectate_queued, boot_players,
}
use private_poker.Game.Census.{IsCensus}
use private_poker.Game.Census.Phases.{seat_players-census, boot_players-census}
use private_poker.Game.Money.{IsBalanced}
use private_poker.Game.Money.Users.{SameTable, stay-IsBalanced, spectate_user-SameTable}

-- The pot, the settings and the donations.
abbrev SameBank : GameData → GameData → Type 0
SameBank d d' = SameTable d d' × (d'.donations ≡ d.donations)

trans-SameBank : (d e f : GameData) → SameBank d e → SameBank e f → SameBank d f
trans-SameBank d e f ((p, s), x) ((p', s'), x') = ((p' ∙ p, s' ∙ s), x' ∙ x)

seat_user-SameBank : (seat : ℕ) (u : User) (d : GameData) → SameBank d (seat_user seat u d)
unfolding seat_user
seat_user-SameBank seat u d = ground arith

seat_loop-SameBank :
    (seats : List ℕ) (us : List User) (d : GameData) → SameBank d (seat_loop seats us d)
unfolding seat_loop
seat_loop-SameBank [] us d = ((refl, refl), refl)
seat_loop-SameBank (seat ∷ seats) [] d = ((refl, refl), refl)
seat_loop-SameBank (seat ∷ seats) (u ∷ us) d =
    trans-SameBank d (seat_user seat u d) (seat_loop seats us (seat_user seat u d))
      (seat_user-SameBank seat u d) (seat_loop-SameBank seats us (seat_user seat u d))

-- Seating the waitlist keeps the money balanced, if no user stands in two places.
pub seat_players-IsBalanced :
    (d : GameData) → IsCensus d → IsBalanced d → IsBalanced (seat_players d)
seat_players-IsBalanced d c balanced =
    let same : SameBank d (seat_players d) =
      unfold seat_players in (seat_loop-SameBank d.open_seats d.waitlist d) in
    stay-IsBalanced d (seat_players d) balanced same.0 (λ w. seat_players-census w d c) same.1

queue_player-SameBank :
    (big_blind : Usd) (p : Player) (d : GameData) → SameBank d (queue_player big_blind p d)
unfolding queue_player
queue_player-SameBank big_blind p d = ground arith

queue_broke-SameBank :
    (big_blind : Usd) (ps : List Player) (d : GameData) → SameBank d (queue_broke big_blind ps d)
unfolding queue_broke
queue_broke-SameBank big_blind [] d = ((refl, refl), refl)
queue_broke-SameBank big_blind (p ∷ ps) d =
    trans-SameBank d (queue_player big_blind p d)
      (queue_broke big_blind ps (queue_player big_blind p d)) (queue_player-SameBank big_blind p d)
      (queue_broke-SameBank big_blind ps (queue_player big_blind p d))

spectate_queued-SameBank : (names : NameSet) (d : GameData) → SameBank d (spectate_queued names d)
unfolding spectate_queued
spectate_queued-SameBank [] d = ((refl, refl), refl)
spectate_queued-SameBank (name ∷ names) d =
    let d' : GameData = record d { players_to_spectate = names } in
    trans-SameBank d (spectate_user name d').0 (spectate_queued names (spectate_user name d').0)
      (spectate_user-SameTable name d') (spectate_queued-SameBank names (spectate_user name d').0)

-- Booting the players who cannot pay the big blind keeps the money balanced.
pub boot_players-IsBalanced : (d : GameData) → IsBalanced d → IsBalanced (boot_players d)
boot_players-IsBalanced d balanced =
    let d1 : GameData = record d { board = []; players = map (reset_rich d.big_blind) d.players } in
    let d2 = queue_broke d.big_blind d.players d1 in
    let same : SameBank d (boot_players d) =
      unfold boot_players in
      (trans-SameBank d d2 (spectate_queued d2.players_to_spectate d2)
        (queue_broke-SameBank d.big_blind d.players d1)
        (spectate_queued-SameBank d2.players_to_spectate d2)) in
    stay-IsBalanced d (boot_players d) balanced same.0 (λ w. boot_players-census w d) same.1
