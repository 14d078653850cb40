-- ===== src/Game/Census/Invariant.antt =====
-- Every user's operation keeps the census well-formed: a user stands in one place only.
use private_poker.Prelude.{
  ◌≡◌, ◌≤◌, String, eq_iff, refl, false, List, arith, str_eq, Bool-cases, Option-cases, inl, inr,
}
use private_poker.Entities.{User, Username}
use private_poker.Entities.NameMap.{lookup, insert, remove}
use private_poker.Entities.NameMap.Laws.{IsMap, insert-IsMap, remove-IsMap}
use private_poker.Game.{GameData}
use private_poker.Game.Queries.{contains_user}
use private_poker.Game.Users.{
  new_user, waitlist_user, remove_user, spectate_user, queue_remove_user, queue_spectate_user,
  locate, Place, spectator, waitlister, player, nowhere, remove_at_once, remove_by_queue,
  spectate_at_once, spectate_by_queue, redistribute_user_money,
}
use private_poker.Game.Census.{census, IsCensus, name_weight}
use private_poker.Game.Census.Lists.{IsKeyed, lookup-IsKeyed, insert-IsKeyed, remove-IsKeyed}
use private_poker.Game.Census.Users.{
  Found, locate-Found, name_of_user, name_of_player, remove_at_once-census, remove_by_queue-census,
  spectate_user-census, queue_spectate_user-census, waitlist_user-census,
}
use private_poker.Game.Census.Join.{new_user-census, free-census}

-- What the census asks of the spectators alone.
abbrev pub IsRegister : List (String × User) → Type 0
IsRegister m = IsMap m × IsKeyed m

insert-IsRegister :
    (k : Username) (u : User) (m : List (String × User))
    → u.name ≡ k
    → IsRegister m
    → IsRegister (insert k u m)
insert-IsRegister k u m e (h, h') = (insert-IsMap k u m h, insert-IsKeyed k u m h' e)

remove-IsRegister :
    (k : Username) (m : List (String × User)) → IsRegister m → IsRegister (remove k m)
remove-IsRegister k m (h, h') = (remove-IsMap k m h, remove-IsKeyed k m h')

module _ (name : Username) (d : GameData) (r : IsRegister d.spectators) where
  remove_at_once-IsRegister :
      (pl : Place) → Found name d pl → IsRegister (remove_at_once name d pl).0.spectators
  unfolding redistribute_user_money
  remove_at_once-IsRegister (spectator u others) (e, e') =
      rw e' (remove-IsRegister name d.spectators r)
  remove_at_once-IsRegister (waitlister u others) h = r
  remove_at_once-IsRegister (player p others) h = r
  remove_at_once-IsRegister nowhere h = r

  remove_by_queue-IsRegister :
      (pl : Place) → Found name d pl → IsRegister (remove_by_queue name d pl).0.spectators
  unfolding redistribute_user_money
  remove_by_queue-IsRegister (spectator u others) h =
      remove_at_once-IsRegister (spectator u others) h
  remove_by_queue-IsRegister (waitlister u others) h = r
  remove_by_queue-IsRegister (player p others) h = r
  remove_by_queue-IsRegister nowhere h = r

  spectate_at_once-IsRegister :
      (pl : Place) → Found name d pl → IsRegister (spectate_at_once name d pl).0.spectators
  spectate_at_once-IsRegister (spectator u others) h = r
  spectate_at_once-IsRegister (waitlister u others) (e, e') =
      insert-IsRegister name u d.spectators (name_of_user name u d.waitlist others e') r
  spectate_at_once-IsRegister (player p others) (e, e') =
      insert-IsRegister name p.user d.spectators (name_of_player name p d.players others e') r
  spectate_at_once-IsRegister nowhere h = r

  spectate_by_queue-IsRegister :
      (pl : Place) → Found name d pl → IsRegister (spectate_by_queue name d pl).0.spectators
  spectate_by_queue-IsRegister (spectator u others) h = r
  spectate_by_queue-IsRegister (waitlister u others) h =
      spectate_at_once-IsRegister (waitlister u others) h
  spectate_by_queue-IsRegister (player p others) h = r
  spectate_by_queue-IsRegister nowhere h = r

  spectate_user-IsRegister : IsRegister (spectate_user name d).0.spectators
  unfolding spectate_user
  spectate_user-IsRegister =
      ground (arith, r, spectate_at_once-IsRegister (locate name d) (locate-Found name d))

  queue_spectate_user-IsRegister : IsRegister (queue_spectate_user name d).0.spectators
  unfolding queue_spectate_user
  queue_spectate_user-IsRegister =
      ground (arith, r, spectate_by_queue-IsRegister (locate name d) (locate-Found name d))

  waitlist_user-IsRegister : IsRegister (waitlist_user name d).0.spectators
  unfolding waitlist_user
  waitlist_user-IsRegister = elim (Option-cases (lookup name d.spectators)) [
    | inl missing ↦ ground arith
    | inr (u, e) ↦ ground (
      arith,
      remove-IsRegister name d.spectators r,
      insert-IsRegister name u (remove name d.spectators) (lookup-IsKeyed name u d.spectators r.1 e)
          (remove-IsRegister name d.spectators r),
    )
  ]

-- A census that does not grow at any name is well-formed if its spectators are.
pub shrunk-IsCensus :
    (d d' : GameData)
    → IsCensus d
    → IsRegister d'.spectators
    → ((k : Username) → census (name_weight k) d' ≤ census (name_weight k) d)
    → IsCensus d'
shrunk-IsCensus d d' c r le = record {
  is_map = r.0;
  is_keyed = r.1;
  once = λ k. omega (arith, le k, c.once k);
}

module _ (name : Username) (d : GameData) (c : IsCensus d) where
  abbrev register : IsRegister d.spectators
  register = (c.is_map, c.is_keyed)

  -- After `remove_user` between two hands, accepted or refused, a well-formed game is well-formed:
  -- nobody stands in two places among the spectators, the waitlist and the players, and the
  -- spectators are a map by their own names.
  pub remove_user-IsCensus : IsCensus (remove_user name d).0
  unfolding remove_user
  remove_user-IsCensus =
      let pl = locate name d in
      let found = locate-Found name d in
      shrunk-IsCensus d (remove_at_once name d pl).0 c
        (remove_at_once-IsRegister name d register pl found)
        (λ k. omega (arith, remove_at_once-census (name_weight k) name d pl found))

  pub queue_remove_user-IsCensus : IsCensus (queue_remove_user name d).0
  unfolding queue_remove_user
  queue_remove_user-IsCensus = ground (
    arith,
    shrunk-IsCensus d (remove_by_queue name d pl).0 c
        (remove_by_queue-IsRegister name d register pl found)
        (λ k. omega (arith, remove_by_queue-census (name_weight k) name d pl found)),
  )
    where
      pl : Place
      pl = locate name d

      found : Found name d pl
      found = locate-Found name d

  -- After `spectate_user` between two hands, accepted or refused, a well-formed game is
  -- well-formed: nobody stands in two places among the spectators, the waitlist and the players,
  -- and the spectators are a map by their own names.
  pub spectate_user-IsCensus : IsCensus (spectate_user name d).0
  spectate_user-IsCensus =
      shrunk-IsCensus d (spectate_user name d).0 c (spectate_user-IsRegister name d register)
        (λ k. omega (arith, spectate_user-census (name_weight k) name d))

  pub queue_spectate_user-IsCensus : IsCensus (queue_spectate_user name d).0
  queue_spectate_user-IsCensus =
      shrunk-IsCensus d (queue_spectate_user name d).0 c
        (queue_spectate_user-IsRegister name d register)
        (λ k. omega (arith, queue_spectate_user-census (name_weight k) name d))

  -- After `waitlist_user`, accepted or refused, a well-formed game is well-formed: nobody stands
  -- in two places among the spectators, the waitlist and the players, and the spectators are a map
  -- by their own names.
  pub waitlist_user-IsCensus : IsCensus (waitlist_user name d).0
  waitlist_user-IsCensus =
      shrunk-IsCensus d (waitlist_user name d).0 c (waitlist_user-IsRegister name d register)
        (λ k. omega (arith, waitlist_user-census (name_weight k) name d c.is_map c.is_keyed))

  -- After `new_user`, accepted or refused, a well-formed game is well-formed: nobody stands in two
  -- places among the spectators, the waitlist and the players, and the spectators are a map by
  -- their own names.
  pub new_user-IsCensus : IsCensus (new_user name d).0
  new_user-IsCensus = elim (new_user-census name d) [
    | inl (same, _) ↦ record {
      is_map = rw same c.is_map;
      is_keyed = rw same c.is_keyed;
      once = once_joined;
    }
    | inr (free, _, joined, _) ↦ record {
      is_map = rw joined (insert-IsMap name new d.spectators c.is_map);
      is_keyed = rw joined (insert-IsKeyed name new d.spectators c.is_keyed refl);
      once = once_joined;
    }
  ]
    where
      new : User
      new = record { name = name; money = d.settings.buy_in }

      nobody :
          (k : Username) → k ≡ name → contains_user name d ≡ false → census (name_weight k) d ≡ 0
      nobody k e free = rw e (free-census name d free).1

      once_joined : (k : Username) → census (name_weight k) (new_user name d).0 ≤ 1
      once_joined k = elim (new_user-census name d) [
        | inl (_, same) ↦ omega (arith, same (name_weight k), c.once k)
        | inr (free, _, _, more) ↦ elim (Bool-cases (str_eq k name)) [
          | inl hit ↦ ground (arith, more (name_weight k), nobody k ((eq_iff k name).0 hit) free)
          | inr miss ↦ ground (arith, more (name_weight k), c.once k)
        ]
      ]
