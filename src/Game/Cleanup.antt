-- ===== src/Game/Cleanup.antt =====
-- The phases after a hand in private_poker/src/game.rs: `RemovePlayers`, `DivideDonations`,
-- `UpdateBlinds` and `BootPlayers`.
use private_poker.Prelude.{
  ℕ, zero, suc, ◌-◌, ◌&&◌, List, [], ◌∷◌, ◌++◌, map, String, ltb, leb, if◌then◌else◌, keep_if, min,
  max, add_u32, mul_u32, u32_mod, Outcome, done, ◌>>=◌,
}
use private_poker.Prelude.Int.{pos, ltb_ℤ}
use private_poker.Entities.{Usd, User}
use private_poker.Entities.Player
use private_poker.Entities.Player.{Player}
use private_poker.Entities.NameSet
use private_poker.Entities.NameSet.{NameSet}
use private_poker.Entities.Usdf.{Usdf, usdf_of, usd_of, ◌-f◌}
use private_poker.Game.{GameData}
use private_poker.Game.Queries.{get_num_users}
use private_poker.Game.Showdown.{checked_div}
use private_poker.Game.Users.{remove_user, spectate_user}

-- The loop over the queue of users to remove; what each removal returns is dropped.
unfoldable pub remove_queued : NameSet → GameData → GameData
unfolding remove_user
remove_queued [] d = d
remove_queued (name ∷ names) d =
    remove_queued names (remove_user name (record d { players_to_remove = names })).0

unfoldable pub remove_players : GameData → GameData
unfolding remove_queued
remove_players d = remove_queued d.players_to_remove d

abbrev pub give : Usd → User → User
give amount u = record u { money = add_u32 u.money amount }

abbrev pub give_player : Usd → Player → Player
give_player amount p = record p { user = give amount p.user }

abbrev pub give_entry : Usd → String × User → String × User
give_entry amount e = (e.0, give amount e.1)

-- `donations -= donation_per_user as Usdf`, once for each user.
unfoldable pub take_donations : ℕ → Usd → Usdf → Usdf
take_donations zero amount donations = donations
take_donations (suc n) amount donations = take_donations n amount (donations -f usdf_of amount)

unfoldable pub divide_donations : GameData → Outcome GameData
unfolding get_num_users take_donations
divide_donations d =
    let num_users = get_num_users d in
    if ltb 0 num_users && ltb_ℤ (pos 0) d.donations
    then (checked_div (usd_of d.donations) num_users >>= λ amount. done (record d {
      spectators = map (give_entry amount) d.spectators;
      waitlist = map (give amount) d.waitlist;
      players = map (give_player amount) d.players;
      donations = take_donations num_users amount d.donations;
    }))
    else done d

unfoldable pub stacks : GameData → List Usd
stacks d =
    map (λ e. e.1.money) d.spectators
    ++ (map (λ u. u.money) d.waitlist ++ map (λ p. p.user.money) d.players)

-- `min().unwrap_or(Usd::MAX)`.
unfoldable pub min_or_max : List Usd → Usd
min_or_max [] = u32_mod - 1
min_or_max (x ∷ xs) = min x (min_or_max xs)

-- The smallest stack that pays the big blind.
unfoldable pub min_stack : GameData → Usd
unfolding stacks min_or_max
min_stack d = min_or_max (keep_if (λ m. leb d.big_blind m) (stacks d))

abbrev pub with_blinds : ℕ → GameData → GameData
with_blinds multiple d = record d {
  small_blind = mul_u32 multiple d.settings.min_small_blind;
  big_blind = mul_u32 multiple d.settings.min_big_blind;
}

unfoldable pub update_blinds : GameData → Outcome GameData
update_blinds d =
    if ltb (min_stack d) (u32_mod - 1)
    then (checked_div (min_stack d) d.settings.buy_in >>= λ stacks_per_buy_in.
        done (with_blinds (max 1 stacks_per_buy_in) d))
    else done d

-- One round of the loop below.
unfoldable pub queue_player : Usd → Player → GameData → GameData
queue_player big_blind p d =
    if ltb p.user.money big_blind
    then record d {
      open_seats = d.open_seats ++ p.seat_idx ∷ [];
      players_to_spectate = NameSet.insert p.user.name d.players_to_spectate;
    }
    else d

-- The loop over the players: who cannot pay the big blind is queued, with the seat opened; the
-- others are reset.
unfoldable pub queue_broke : Usd → List Player → GameData → GameData
unfolding queue_player
queue_broke big_blind [] d = d
queue_broke big_blind (p ∷ players) d = queue_broke big_blind players (queue_player big_blind p d)

abbrev pub reset_rich : Usd → Player → Player
reset_rich big_blind p = if ltb p.user.money big_blind then p else Player.reset p

unfoldable pub spectate_queued : NameSet → GameData → GameData
unfolding spectate_user
spectate_queued [] d = d
spectate_queued (name ∷ names) d =
    spectate_queued names (spectate_user name (record d { players_to_spectate = names })).0

unfoldable pub boot_players : GameData → GameData
unfolding queue_broke spectate_queued
boot_players d =
    let d' =
      queue_broke d.big_blind d.players
        (record d { board = []; players = map (reset_rich d.big_blind) d.players }) in
    spectate_queued d'.players_to_spectate d'
