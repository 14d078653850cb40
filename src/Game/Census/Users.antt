-- ===== src/Game/Census/Users.antt =====
-- What the users' operations do to the census.
use private_poker.Prelude.{
  ℕ, ◌+◌, ◌≡◌, refl, ap, false, List, [], ◌∷◌, none, some, arith, eq_iff, sum_by-append, take_first,
  Option-cases, inl, inr,
}
use private_poker.Entities.{User, Username}
use private_poker.Entities.Player.{Player}
use private_poker.Entities.NameMap.{lookup, contains_key, remove}
use private_poker.Entities.NameMap.Laws.{
  IsMap, contains_key-lookup, contains_key-remove_self, sum_by-insert, sum_by-remove,
}
use private_poker.Game.{GameData}
use private_poker.Game.Users.{
  waitlist_user, spectate_user, queue_spectate_user, locate, Place, spectator, waitlister, player,
  nowhere, is_named, is_player_named, remove_at_once, remove_by_queue, spectate_at_once,
  spectate_by_queue, redistribute_user_money,
}
use private_poker.Game.Census.{Weight, weigh_user, weigh_entry, weigh_player, census}
use private_poker.Game.Census.Lists.{IsKeyed, lookup-IsKeyed, take_first-passes, sum_by-take_first}

-- What `locate` says of the place that it finds.
abbrev pub Found : Username → GameData → Place → Type 0
Found name d (spectator u others) =
    (lookup name d.spectators ≡ some u) × (others ≡ remove name d.spectators)
Found name d (waitlister u others) =
    (lookup name d.spectators ≡ none) × (take_first (is_named name) d.waitlist ≡ some (u, others))
Found name d (player p others) =
    (lookup name d.spectators ≡ none)
    × (take_first (is_player_named name) d.players ≡ some (p, others))
Found name d nowhere = lookup name d.spectators ≡ none

pub locate-Found : (name : Username) (d : GameData) → Found name d (locate name d)
unfolding locate
locate-Found name d = elim (Option-cases (lookup name d.spectators)) [
  | inr (u, e) ↦ rw e (e, refl)
  | inl none_there ↦ rw none_there (elim (Option-cases (take_first (is_named name) d.waitlist)) [
    | inr ((u, others), e) ↦ rw e (none_there, e)
    | inl not_waiting ↦
        rw not_waiting (elim (Option-cases (take_first (is_player_named name) d.players)) [
          | inr ((p, others), e) ↦ rw e (none_there, e)
          | inl not_playing ↦ rw not_playing none_there
        ])
  ])
]

-- The weight of the user at a place.
abbrev pub weigh_place : Weight → Username → Place → ℕ
weigh_place w name (spectator u others) = w name u.money
weigh_place w name (waitlister u others) = w name u.money
weigh_place w name (player p others) = w name p.user.money
weigh_place w name nowhere = 0

pub name_of_user :
    (name : Username) (u : User) (xs ys : List User)
    → take_first (is_named name) xs ≡ some (u, ys)
    → u.name ≡ name
name_of_user name u xs ys e = (eq_iff u.name name).0 (take_first-passes (is_named name) u xs ys e)

pub name_of_player :
    (name : Username) (p : Player) (xs ys : List Player)
    → take_first (is_player_named name) xs ≡ some (p, ys)
    → p.user.name ≡ name
name_of_player name p xs ys e =
    (eq_iff p.user.name name).0 (take_first-passes (is_player_named name) p xs ys e)

module _ (w : Weight) (name : Username) (d : GameData) where
  -- Between hands, who is removed leaves the census.
  pub remove_at_once-census :
      (pl : Place)
      → Found name d pl
      → census w (remove_at_once name d pl).0 + weigh_place w name pl ≡ census w d
  unfolding census redistribute_user_money
  remove_at_once-census (spectator u others) (e, e') =
      rw e' (omega (arith, sum_by-remove (weigh_entry w) name u d.spectators e))
  remove_at_once-census (waitlister u others) (e, e') =
      rw (← name_of_user name u d.waitlist others e')
        (omega (arith, sum_by-take_first (weigh_user w) (is_named name) u d.waitlist others e'))
  remove_at_once-census (player p others) (e, e') =
      rw (← name_of_player name p d.players others e') (
        omega
          (arith, sum_by-take_first (weigh_player w) (is_player_named name) p d.players others e'))
  remove_at_once-census nowhere e = omega arith

  -- Who is sent to the spectators stays in it.
  pub spectate_at_once-census :
      (pl : Place) → Found name d pl → census w (spectate_at_once name d pl).0 ≡ census w d
  unfolding census
  spectate_at_once-census (spectator u others) (e, e') = refl
  spectate_at_once-census (waitlister u others) (e, e') =
      rw (← name_of_user name u d.waitlist others e') (
        omega (
          arith,
          sum_by-insert (weigh_entry w) u.name u d.spectators (free_name e),
          sum_by-take_first (weigh_user w) (is_named name) u d.waitlist others e',
        ))
    where
      free_name : lookup name d.spectators ≡ none → contains_key u.name d.spectators ≡ false
      free_name h =
          rw (name_of_user name u d.waitlist others e') (contains_key-lookup name d.spectators h)
  spectate_at_once-census (player p others) (e, e') =
      rw (← name_of_player name p d.players others e') (
        omega (
          arith,
          sum_by-insert (weigh_entry w) p.user.name p.user d.spectators (free_name e),
          sum_by-take_first (weigh_player w) (is_player_named name) p d.players others e',
        ))
    where
      free_name : lookup name d.spectators ≡ none → contains_key p.user.name d.spectators ≡ false
      free_name h =
          rw (name_of_player name p d.players others e') (contains_key-lookup name d.spectators h)
  spectate_at_once-census nowhere e = refl

  -- While a hand is played a player stays, and others go as between hands.
  abbrev pub weigh_leaver : Place → ℕ
  weigh_leaver (player p others) = 0
  weigh_leaver pl = weigh_place w name pl

  pub remove_by_queue-census :
      (pl : Place)
      → Found name d pl
      → census w (remove_by_queue name d pl).0 + weigh_leaver pl ≡ census w d
  unfolding census redistribute_user_money
  remove_by_queue-census (spectator u others) h = remove_at_once-census (spectator u others) h
  remove_by_queue-census (waitlister u others) h = remove_at_once-census (waitlister u others) h
  remove_by_queue-census (player p others) h = omega arith
  remove_by_queue-census nowhere h = omega arith

  pub spectate_by_queue-census :
      (pl : Place) → Found name d pl → census w (spectate_by_queue name d pl).0 ≡ census w d
  unfolding census
  spectate_by_queue-census (spectator u others) h = refl
  spectate_by_queue-census (waitlister u others) h = spectate_at_once-census (waitlister u others) h
  spectate_by_queue-census (player p others) h = refl
  spectate_by_queue-census nowhere h = refl

  pub spectate_user-census : census w (spectate_user name d).0 ≡ census w d
  unfolding spectate_user
  spectate_user-census =
      ground (arith, spectate_at_once-census (locate name d) (locate-Found name d))

  pub queue_spectate_user-census : census w (queue_spectate_user name d).0 ≡ census w d
  unfolding queue_spectate_user
  queue_spectate_user-census =
      ground (arith, spectate_by_queue-census (locate name d) (locate-Found name d))

  pub waitlist_user-census :
      IsMap d.spectators → IsKeyed d.spectators → census w (waitlist_user name d).0 ≡ census w d
  unfolding waitlist_user census
  waitlist_user-census m k = elim (Option-cases (lookup name d.spectators)) [
    | inl missing ↦ ground arith
    | inr (u, e) ↦ ground (
      arith,
      ap (λ n. w n u.money) (lookup-IsKeyed name u d.spectators k e),
      sum_by-append (weigh_user w) d.waitlist (u ∷ []),
      sum_by-remove (weigh_entry w) name u d.spectators e,
      sum_by-insert (weigh_entry w) name u (remove name d.spectators)
          (contains_key-remove_self name d.spectators m),
    )
  ]
