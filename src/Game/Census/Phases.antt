-- ===== src/Game/Census/Phases.antt =====
-- What the phases between two hands do to the census: seating, removing, and booting.
use private_poker.Prelude.{
  ℕ, ◌+◌, ◌≡◌, ◌≤◌, refl, ◌∙◌, String, true, false, List, [], ◌∷◌, map, arith, eq_iff, sum_by,
  sum_by-append, Bool-cases, Option-cases, inl, inr,
}
use private_poker.Entities.{User, Username, Usd}
use private_poker.Entities.Player
use private_poker.Entities.Player.{Player}
use private_poker.Entities.NameSet.{NameSet}
use private_poker.Entities.NameMap.{contains_key}
use private_poker.Entities.NameMap.Laws.{sum_by-insert, insert-IsMap}
use private_poker.Game.{GameData}
use private_poker.Game.Seats.{gap, seat_player, seat_user, seat_loop, seat_players}
use private_poker.Game.Users.{remove_user, spectate_user}
use private_poker.Game.Cleanup.{
  remove_queued, remove_players, queue_player, queue_broke, reset_rich, spectate_queued,
  boot_players,
}
use private_poker.Game.Census.{Weight, weigh_entry, weigh_player, census, IsCensus, name_weight}
use private_poker.Game.Census.Lists.{insert-IsKeyed, sum_by-insert_at}
use private_poker.Game.Census.Users.{spectate_user-census}
use private_poker.Game.Census.Invariant.{remove_user-IsCensus, spectate_user-IsCensus}

-- Seating puts the player somewhere in the list.
sum_by-seat_player :
    (f : Player → ℕ) (p : Player) (ps : List Player)
    → sum_by f (seat_player p ps) ≡ sum_by f ps + f p
unfolding seat_player
sum_by-seat_player f p ps = elim (Option-cases (gap p.seat_idx ps)) [
  | inl none_there ↦ ground (arith, sum_by-append f ps (p ∷ []))
  | inr (i, e) ↦ ground (arith, e, sum_by-insert_at f p (i + 1) ps)
]

key_weight :
    (k : Username) (m : List (String × User))
    → contains_key k m ≡ true
    → 1 ≤ sum_by (weigh_entry (name_weight k)) m
key_weight k [] h = cc
key_weight k (e ∷ m) h = ground (arith, key_weight k m)

-- The data with the users who still wait in the loop's own queue.
abbrev waiting : GameData → List User → GameData
waiting d users = record d { waitlist = users }

-- Who waits is no spectator.
waiting_free :
    (u : User) (us : List User) (d : GameData)
    → IsCensus (waiting d (u ∷ us))
    → contains_key u.name d.spectators ≡ false
unfolding census
waiting_free u us d c = elim (Bool-cases (contains_key u.name d.spectators)) [
  | inr free ↦ free
  | inl key ↦
      absurd
        (ground (arith, eq_iff u.name u.name, key_weight u.name d.spectators key, c.once u.name))
]

seat_user-census :
    (w : Weight) (seat : ℕ) (u : User) (us : List User) (d : GameData)
    → IsCensus (waiting d (u ∷ us))
    → census w (waiting (seat_user seat u d) us) ≡ census w (waiting d (u ∷ us))
unfolding seat_user census
seat_user-census w seat u us d c = ground (
  arith,
  sum_by-insert (weigh_entry w) u.name u d.spectators (waiting_free u us d c),
  sum_by-seat_player (weigh_player w) (Player.new u seat) d.players,
)

seat_user-IsCensus :
    (seat : ℕ) (u : User) (us : List User) (d : GameData)
    → IsCensus (waiting d (u ∷ us))
    → IsCensus (waiting (seat_user seat u d) us)
unfolding seat_user
seat_user-IsCensus seat u us d c = record {
  is_map = ground (arith, c.is_map, insert-IsMap u.name u d.spectators c.is_map);
  is_keyed = ground (arith, c.is_keyed, insert-IsKeyed u.name u d.spectators c.is_keyed refl);
  once = λ k. omega (arith, seat_user-census (name_weight k) seat u us d c, c.once k);
}

pub seat_loop-census :
    (w : Weight) (seats : List ℕ) (us : List User) (d : GameData)
    → IsCensus (waiting d us)
    → census w (seat_loop seats us d) ≡ census w (waiting d us)
unfolding seat_loop census
seat_loop-census w [] us d c = refl
seat_loop-census w (seat ∷ seats) [] d c = refl
seat_loop-census w (seat ∷ seats) (u ∷ us) d c =
    seat_loop-census w seats us (seat_user seat u d) (seat_user-IsCensus seat u us d c)
    ∙ seat_user-census w seat u us d c

seat_loop-IsCensus :
    (seats : List ℕ) (us : List User) (d : GameData)
    → IsCensus (waiting d us)
    → IsCensus (seat_loop seats us d)
unfolding seat_loop census
seat_loop-IsCensus [] us d c = record { is_map = c.is_map; is_keyed = c.is_keyed; once = c.once }
seat_loop-IsCensus (seat ∷ seats) [] d c = record {
  is_map = c.is_map;
  is_keyed = c.is_keyed;
  once = c.once;
}
seat_loop-IsCensus (seat ∷ seats) (u ∷ us) d c =
    seat_loop-IsCensus seats us (seat_user seat u d) (seat_user-IsCensus seat u us d c)

-- Seating the waitlist moves users with their money and drops nobody: every sum over all users, by
-- any weight of a name and its money, stays the same. The condition: nobody stands in two places.
pub seat_players-census :
    (w : Weight) (d : GameData) → IsCensus d → census w (seat_players d) ≡ census w d
unfolding seat_players census
seat_players-census w d c = seat_loop-census w d.open_seats d.waitlist d c

-- After the waitlist is seated, a well-formed game is well-formed: nobody stands in two places
-- among the spectators, the waitlist and the players, and the spectators are a map by their own
-- names.
pub seat_players-IsCensus : (d : GameData) → IsCensus d → IsCensus (seat_players d)
unfolding seat_players census
seat_players-IsCensus d c =
    let seated = seat_loop-IsCensus d.open_seats d.waitlist d c in
    record { is_map = seated.is_map; is_keyed = seated.is_keyed; once = seated.once }

-- A change of the queues, the seats or the players' cards is no change of the census.
pub same-IsCensus :
    (d d' : GameData)
    → IsCensus d
    → d'.spectators ≡ d.spectators
    → ((k : Username) → census (name_weight k) d' ≡ census (name_weight k) d)
    → IsCensus d'
same-IsCensus d d' c e same = record {
  is_map = rw e c.is_map;
  is_keyed = rw e c.is_keyed;
  once = λ k. omega (arith, same k, c.once k);
}

remove_queued-IsCensus :
    (names : NameSet) (d : GameData) → IsCensus d → IsCensus (remove_queued names d)
unfolding remove_queued census
remove_queued-IsCensus [] d c = c
remove_queued-IsCensus (name ∷ names) d c =
    remove_queued-IsCensus names (remove_user name (record d { players_to_remove = names })).0 (
      remove_user-IsCensus name (record d { players_to_remove = names })
        (same-IsCensus d (record d { players_to_remove = names }) c refl (λ k. refl)))

pub remove_players-IsCensus : (d : GameData) → IsCensus d → IsCensus (remove_players d)
unfolding remove_players
remove_players-IsCensus d c = remove_queued-IsCensus d.players_to_remove d c

sum_by-reset_rich :
    (w : Weight) (big_blind : Usd) (ps : List Player)
    → sum_by (weigh_player w) (map (reset_rich big_blind) ps) ≡ sum_by (weigh_player w) ps
sum_by-reset_rich w big_blind [] = refl
sum_by-reset_rich w big_blind (p ∷ ps) = ground (arith, sum_by-reset_rich w big_blind ps)

queue_player-census :
    (w : Weight) (big_blind : Usd) (p : Player) (d : GameData)
    → (census w (queue_player big_blind p d) ≡ census w d)
      × ((queue_player big_blind p d).spectators ≡ d.spectators)
unfolding queue_player census
queue_player-census w big_blind p d = ground arith

queue_broke-census :
    (w : Weight) (big_blind : Usd) (ps : List Player) (d : GameData)
    → (census w (queue_broke big_blind ps d) ≡ census w d)
      × ((queue_broke big_blind ps d).spectators ≡ d.spectators)
unfolding queue_broke
queue_broke-census w big_blind [] d = (refl, refl)
queue_broke-census w big_blind (p ∷ ps) d =
    let (counted, same) = queue_broke-census w big_blind ps (queue_player big_blind p d) in
    let (counted', same') = queue_player-census w big_blind p d in
    (counted ∙ counted', same ∙ same')

spectate_queued-census :
    (w : Weight) (names : NameSet) (d : GameData) → census w (spectate_queued names d) ≡ census w d
unfolding spectate_queued census
spectate_queued-census w [] d = refl
spectate_queued-census w (name ∷ names) d =
    spectate_queued-census w names (spectate_user name (record d { players_to_spectate = names })).0
    ∙ spectate_user-census w name (record d { players_to_spectate = names })

spectate_queued-IsCensus :
    (names : NameSet) (d : GameData) → IsCensus d → IsCensus (spectate_queued names d)
unfolding spectate_queued census
spectate_queued-IsCensus [] d c = c
spectate_queued-IsCensus (name ∷ names) d c =
    spectate_queued-IsCensus names (spectate_user name (record d { players_to_spectate = names })).0
      (spectate_user-IsCensus name (record d { players_to_spectate = names })
        (same-IsCensus d (record d { players_to_spectate = names }) c refl (λ k. refl)))

-- The data after the loop over the players.
abbrev queued : GameData → GameData
queued d =
    queue_broke d.big_blind d.players
      (record d { board = []; players = map (reset_rich d.big_blind) d.players })

queued-census : (w : Weight) (d : GameData) → census w (queued d) ≡ census w d
unfolding census
queued-census w d = omega (
  arith,
  (queue_broke-census w d.big_blind d.players
      (record d { board = []; players = map (reset_rich d.big_blind) d.players })).0,
  sum_by-reset_rich w d.big_blind d.players,
)

-- Booting players moves them to the spectators with their money and drops nobody: every sum over
-- all users, by any weight of a name and its money, stays the same.
pub boot_players-census : (w : Weight) (d : GameData) → census w (boot_players d) ≡ census w d
unfolding boot_players
boot_players-census w d =
    spectate_queued-census w (queued d).players_to_spectate (queued d) ∙ queued-census w d

-- After the players who cannot pay are booted, a well-formed game is well-formed: nobody stands in
-- two places among the spectators, the waitlist and the players, and the spectators are a map by
-- their own names.
pub boot_players-IsCensus : (d : GameData) → IsCensus d → IsCensus (boot_players d)
unfolding boot_players
boot_players-IsCensus d c = spectate_queued-IsCensus (queued d).players_to_spectate (queued d) (
    same-IsCensus d (queued d) c (queue_broke-census (λ _ _. 0) d.big_blind d.players _).1
      (λ k. queued-census (name_weight k) d))
