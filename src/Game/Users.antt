-- ===== src/Game/Users.antt =====
-- The users' operations of private_poker/src/game.rs: `new_user`, `waitlist_user`, and `remove_user`
-- and `spectate_user` as the two macros write them, at once (`impl_user_managers`) or by a queue
-- while a hand is played (`impl_user_managers_with_queue`); `show_hand`.
-- Each returns the new data, also where it fails, and its result.
use private_poker.Prelude.{
  String, Bool, true, false, List, [], ◌∷◌, ◌++◌, Option, none, some, ltb, ◌==◌, str_eq,
  if◌then◌else◌, take_first,
}
use private_poker.Entities.{User, Username, Usd}
use private_poker.Entities.Player.{Player}
use private_poker.Entities.NameMap
use private_poker.Entities.NameSet
use private_poker.Entities.Usdf.{usdf_of, ◌+f◌, ◌-f◌}
use private_poker.Game.{
  GameData, Result, ok, err, capacity_reached, user_already_exists, user_does_not_exist,
  insufficient_funds, user_already_showing_hand, user_not_playing,
}
use private_poker.Game.Queries.{get_num_users, contains_user, contains_player, contains_waitlister}

abbrev pub Managed : Type 0
Managed = GameData × Result Bool

unfoldable pub new_user : Username → GameData → Managed
unfolding get_num_users contains_user
new_user username d =
    if get_num_users d == d.settings.max_users
    then (d, err capacity_reached)
    else if contains_user username d
    then (if NameSet.contains username d.players_to_remove
        then (
          record d { players_to_remove = NameSet.remove username d.players_to_remove },
          ok false,
        )
        else (d, err user_already_exists))
    else (
      record d {
        spectators =
            NameMap.insert username (record { name = username; money = d.settings.buy_in })
              d.spectators;
      },
      ok true,
    )

unfoldable pub waitlist_user : Username → GameData → Managed
unfolding contains_player contains_waitlister
waitlist_user username d =
    let d' = record d {
      players_to_spectate = NameSet.remove username d.players_to_spectate;
      players_to_remove = NameSet.remove username d.players_to_remove;
    } in
    elim (NameMap.lookup username d.spectators) [
      | some user ↦
          let others = NameMap.remove username d.spectators in
          if ltb user.money d.big_blind
          then (
            record d' { spectators = NameMap.insert username user others },
            err (insufficient_funds d.big_blind),
          )
          else (record d' { spectators = others; waitlist = d.waitlist ++ user ∷ [] }, ok true)
      | none ↦
          if contains_player username d
          then (d', ok false)
          else if contains_waitlister username d
          then (d', ok true)
          else (d', err user_does_not_exist)
    ]

-- `redistribute_user_money`, for a user that leaves the game.
unfoldable pub redistribute_user_money : Usd → GameData → GameData
redistribute_user_money money d = record d {
  donations = d.donations +f (usdf_of money -f usdf_of d.settings.buy_in);
}

abbrev pub is_named : Username → User → Bool
is_named username u = str_eq u.name username

abbrev pub is_player_named : Username → Player → Bool
is_player_named username p = str_eq p.user.name username

-- What the user's operations find: a spectator, a waitlister or a player, with the others.
pub data Place : Type 0 where
  spectator : User → List (String × User) → Place
  waitlister : User → List User → Place
  player : Player → List Player → Place
  nowhere : Place

abbrev pub place_player : Option (Player × List Player) → Place
place_player none = nowhere
place_player (some (p, others)) = player p others

abbrev pub place_waitlister : Option (User × List User) → Place → Place
place_waitlister none later = later
place_waitlister (some (u, others)) later = waitlister u others

abbrev pub place_spectator : Option User → List (String × User) → Place → Place
place_spectator none others later = later
place_spectator (some u) others later = spectator u others

-- The chain of `if let` tests that the operations start with.
unfoldable pub locate : Username → GameData → Place
locate username d =
    place_spectator (NameMap.lookup username d.spectators) (NameMap.remove username d.spectators) (
      place_waitlister (take_first (is_named username) d.waitlist)
        (place_player (take_first (is_player_named username) d.players)))

-- `remove_user` between hands.
abbrev pub remove_at_once : Username → GameData → Place → Managed
remove_at_once username d (spectator u others) =
    (redistribute_user_money u.money (record d { spectators = others }), ok true)
remove_at_once username d (waitlister u others) =
    (redistribute_user_money u.money (record d { waitlist = others }), ok true)
remove_at_once username d (player p others) = (
  redistribute_user_money p.user.money (record d {
    players_to_spectate = NameSet.remove username d.players_to_spectate;
    players = others;
    open_seats = d.open_seats ++ p.seat_idx ∷ [];
  }),
  ok true,
)
remove_at_once username d nowhere = (d, err user_does_not_exist)

unfoldable pub remove_user : Username → GameData → Managed
unfolding locate redistribute_user_money
remove_user username d = remove_at_once username d (locate username d)

-- `spectate_user` between hands.
abbrev pub spectate_at_once : Username → GameData → Place → Managed
spectate_at_once username d (spectator u others) = (d, ok true)
spectate_at_once username d (waitlister u others) =
    (record d { waitlist = others; spectators = NameMap.insert username u d.spectators }, ok true)
spectate_at_once username d (player p others) = (
  record d {
    players_to_remove = NameSet.remove username d.players_to_remove;
    players = others;
    open_seats = d.open_seats ++ p.seat_idx ∷ [];
    spectators = NameMap.insert username p.user d.spectators;
  },
  ok true,
)
spectate_at_once username d nowhere = (d, err user_does_not_exist)

unfoldable pub spectate_user : Username → GameData → Managed
unfolding locate
spectate_user username d =
    if NameSet.contains username d.players_to_spectate
    then (d, ok false)
    else spectate_at_once username d (locate username d)

-- `remove_user` while a hand is played: a player is only queued.
abbrev pub remove_by_queue : Username → GameData → Place → Managed
remove_by_queue username d (spectator u others) =
    (redistribute_user_money u.money (record d { spectators = others }), ok true)
remove_by_queue username d (waitlister u others) =
    (redistribute_user_money u.money (record d { waitlist = others }), ok true)
remove_by_queue username d (player p others) = (
  record d {
    players_to_spectate = NameSet.remove username d.players_to_spectate;
    players_to_remove = NameSet.insert username d.players_to_remove;
  },
  ok false,
)
remove_by_queue username d nowhere = (d, err user_does_not_exist)

unfoldable pub queue_remove_user : Username → GameData → Managed
unfolding locate redistribute_user_money
queue_remove_user username d =
    if NameSet.contains username d.players_to_remove
    then (d, ok false)
    else remove_by_queue username d (locate username d)

-- `spectate_user` while a hand is played.
abbrev pub spectate_by_queue : Username → GameData → Place → Managed
spectate_by_queue username d (spectator u others) = (d, ok true)
spectate_by_queue username d (waitlister u others) =
    (record d { waitlist = others; spectators = NameMap.insert username u d.spectators }, ok true)
spectate_by_queue username d (player p others) = (
  record d {
    players_to_remove = NameSet.remove username d.players_to_remove;
    players_to_spectate = NameSet.insert username d.players_to_spectate;
  },
  ok false,
)
spectate_by_queue username d nowhere = (d, err user_does_not_exist)

unfoldable pub queue_spectate_user : Username → GameData → Managed
unfolding locate
queue_spectate_user username d =
    if NameSet.contains username d.players_to_spectate
    then (d, ok false)
    else spectate_by_queue username d (locate username d)

-- `show_hand`: the first player of that name, and the players after the call.
unfoldable pub show_first : Username → List Player → Option (Bool × List Player)
show_first username [] = none
show_first username (p ∷ ps) =
    let rest = show_first username ps in
    if str_eq p.user.name username
    then some (p.showing, record p { showing = true } ∷ ps)
    else elim rest [ none ↦ none | some (shown, ps') ↦ some (shown, p ∷ ps') ]

unfoldable pub show_hand : Username → GameData → GameData × Result (Unit {0})
unfolding show_first
show_hand username d = elim (show_first username d.players) [
  | none ↦ (d, err user_not_playing)
  | some (shown, players') ↦
      if shown then (d, err user_already_showing_hand) else (record d { players = players' }, ok tt)
]
