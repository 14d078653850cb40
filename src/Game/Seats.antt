-- ===== src/Game/Seats.antt =====
-- From `SeatPlayers` to `MoveButton` in private_poker/src/game.rs: waitlisted users take the open
-- seats.
use private_poker.Prelude.{
  ℕ, suc, ◌+◌, ◌&&◌, List, [], ◌∷◌, ◌++◌, Option, none, some, ltb, if◌then◌else◌, length, insert_at,
}
use private_poker.Entities.{User}
use private_poker.Entities.Player
use private_poker.Entities.Player.{Player}
use private_poker.Entities.NameMap
use private_poker.Game.{GameData}

-- The first index whose player sits before the seat while the next one sits behind it.
unfoldable pub gap : ℕ → List Player → Option ℕ
gap seat [] = none
gap seat (p ∷ []) = none
gap seat (p ∷ q ∷ players) =
    let rest = gap seat (q ∷ players) in
    if ltb p.seat_idx seat && ltb seat q.seat_idx
    then some 0
    else elim rest [ none ↦ none | some i ↦ some (suc i) ]

unfoldable pub seat_player : Player → List Player → List Player
unfolding gap
seat_player p players = elim (gap p.seat_idx players) [
  | none ↦ players ++ p ∷ []
  | some i ↦ insert_at players (i + 1) p
]

-- One round of the loop.
unfoldable pub seat_user : ℕ → User → GameData → GameData
unfolding seat_player
seat_user seat user d =
    if ltb user.money d.big_blind
    then record d { spectators = NameMap.insert user.name user d.spectators }
    else record d { players = seat_player (Player.new user seat) d.players }

-- The loop takes from both queues until one is empty.
unfoldable pub seat_loop : List ℕ → List User → GameData → GameData
unfolding seat_user
seat_loop [] waitlist d = record d { open_seats = []; waitlist = waitlist }
seat_loop (seat ∷ seats) [] d = record d { open_seats = seat ∷ seats; waitlist = [] }
seat_loop (seat ∷ seats) (user ∷ waitlist) d = seat_loop seats waitlist (seat_user seat user d)

unfoldable pub seat_players : GameData → GameData
unfolding seat_loop
seat_players d =
    let d' = seat_loop d.open_seats d.waitlist d in
    record d' { num_players_active = length d'.players }
