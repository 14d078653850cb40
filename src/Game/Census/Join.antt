-- ===== src/Game/Census/Join.antt =====
-- What `new_user` does to the census: nothing, or one user more, under a name that was free.
use private_poker.Prelude.{
  ◌+◌, ◌≡◌, ◌≢◌, refl, false, List, [], ◌∷◌, ◌++◌, map, String, arith, str_eq, eq_iff, ◌==◌, sum_by,
  any, Bool-cases, inl, inr, ◌⊎◌,
}
use private_poker.Entities.{User, Username}
use private_poker.Entities.Player.{Player}
use private_poker.Entities.NameMap.{contains_key, insert}
use private_poker.Entities.NameMap.Laws.{sum_by-insert}
use private_poker.Game.{GameData}
use private_poker.Game.Queries.{contains_user, get_num_users}
use private_poker.Game.Users.{new_user}
use private_poker.Game.Census.{Weight, weigh_user, weigh_entry, weigh_player, census, name_weight}

no_entry :
    (k : Username) (m : List (String × User))
    → contains_key k m ≡ false
    → sum_by (weigh_entry (name_weight k)) m ≡ 0
no_entry k [] h = refl
no_entry k (e ∷ m) h = ground (arith, no_entry k m)

no_user :
    (k : Username) (us : List User)
    → any (λ u. str_eq u.name k) us ≡ false
    → sum_by (weigh_user (name_weight k)) us ≡ 0
no_user k [] h = refl
no_user k (u ∷ us) h = ground (arith, eq_iff u.name k, eq_iff k u.name, no_user k us)

any-append_left :
    (k : Username) (us vs : List User)
    → any (λ u. str_eq u.name k) (us ++ vs) ≡ false
    → any (λ u. str_eq u.name k) us ≡ false
any-append_left k [] vs h = refl
any-append_left k (u ∷ us) vs h = ground (arith, any-append_left k us vs)

any-append_right :
    (k : Username) (us vs : List User)
    → any (λ u. str_eq u.name k) (us ++ vs) ≡ false
    → any (λ u. str_eq u.name k) vs ≡ false
any-append_right k [] vs h = h
any-append_right k (u ∷ us) vs h = ground (arith, any-append_right k us vs)

sum_by-users :
    (w : Weight) (ps : List Player)
    → sum_by (weigh_user w) (map (λ p. p.user) ps) ≡ sum_by (weigh_player w) ps
sum_by-users w [] = refl
sum_by-users w (p ∷ ps) = omega (arith, sum_by-users w ps)

-- A name that `contains_user` does not find has no entry in the census.
pub free-census :
    (name : Username) (d : GameData)
    → contains_user name d ≡ false
    → (contains_key name d.spectators ≡ false) × (census (name_weight name) d ≡ 0)
unfolding contains_user census
free-census name d h = elim (Bool-cases (contains_key name d.spectators)) [
  | inl key ↦ absurd (ground arith)
  | inr no_key ↦
      let rest : any (λ u. str_eq u.name name) (d.waitlist ++ map (λ p. p.user) d.players) ≡ false =
        ground arith in
      (
        no_key,
        omega (
          arith,
          no_entry name d.spectators no_key,
          no_user name d.waitlist (any-append_left name d.waitlist _ rest),
          no_user name (map (λ p. p.user) d.players) (any-append_right name d.waitlist _ rest),
          sum_by-users (name_weight name) d.players,
        ),
      )
]

-- Either nobody joined, or a user with the buy-in did, under a free name and below the capacity.
abbrev pub Joins : Username → GameData → GameData → Type 0
Joins name d d' =
    ((d'.spectators ≡ d.spectators) × ((w : Weight) → census w d' ≡ census w d))
    ⊎ ((contains_user name d ≡ false)
        × (get_num_users d ≢ d.settings.max_users)
        × (d'.spectators
            ≡ insert name (record { name = name; money = d.settings.buy_in }) d.spectators)
        × ((w : Weight) → census w d' ≡ census w d + w name d.settings.buy_in))

-- A call of `new_user` either changes no sum over the users, or adds one user with the buy-in,
-- under a name that nobody had and while the capacity was not reached.
pub new_user-census : (name : Username) (d : GameData) → Joins name d (new_user name d).0
unfolding new_user census
new_user-census name d = elim (Bool-cases (contains_user name d)) [
  | inl known ↦ inl (ground arith, λ w. ground arith)
  | inr free ↦ elim (Bool-cases (get_num_users d == d.settings.max_users)) [
    | inl full ↦ inl (ground arith, λ w. ground arith)
    | inr room ↦ inr (
      free,
      ground arith,
      ground arith,
      λ w. ground (
        arith,
        sum_by-insert (weigh_entry w) name (record { name = name; money = d.settings.buy_in })
            d.spectators (free-census name d free).0,
      ),
    )
  ]
]
