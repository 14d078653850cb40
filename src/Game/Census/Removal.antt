-- ===== src/Game/Census/Removal.antt =====
-- What a removal between two hands, in private_poker/src/game.rs, does to the users.
use private_poker.Prelude.{
  ◌+◌, ◌≡◌, refl, Bool-cases, Option-cases, inl, inr, true, false, List, [], ◌∷◌, ◌++◌, map, none,
  arith, eq_iff, any, take_first, Bool,
}
use private_poker.Entities.{User, Username, Usd}
use private_poker.Entities.Player.{Player}
use private_poker.Entities.NameMap.{lookup}
use private_poker.Entities.NameMap.Laws.{contains_key-lookup}
use private_poker.Game.{GameData, Result, ok, user_does_not_exist}
use private_poker.Game.Queries.{contains_user}
use private_poker.Game.Users.{
  remove_user, locate, Place, spectator, waitlister, player, nowhere, is_named, is_player_named,
  remove_at_once, Managed,
}
use private_poker.Game.Census.{Weight, census, IsCensus, name_weight}
use private_poker.Game.Census.Users.{Found, locate-Found, weigh_place, remove_at_once-census}
use private_poker.Game.Census.Join.{free-census}

any-take_first {ℓ} :
    {A : Type ℓ} (p : A → Bool) (xs : List A) → take_first p xs ≡ none → any p xs ≡ false
any-take_first p [] e = refl
any-take_first p (x ∷ xs) e = elim (Bool-cases (p x)) [
  | inl hit ↦ ground arith
  | inr miss ↦ elim (Option-cases (take_first p xs)) [
    | inl nothing ↦ ground (arith, any-take_first p xs nothing)
    | inr ((y, ys), found) ↦ ground arith
  ]
]

any-users :
    (name : Username) (us : List User) (ps : List Player)
    → any (is_named name) us ≡ false
    → any (is_player_named name) ps ≡ false
    → any (is_named name) (us ++ map (λ p. p.user) ps) ≡ false
any-users name [] [] h h' = refl
any-users name [] (p ∷ ps) h h' = ground (arith, any-users name [] ps refl)
any-users name (u ∷ us) ps h h' = ground (arith, any-users name us ps)

-- Who has no place has no entry.
locate-nowhere :
    (name : Username) (d : GameData) → locate name d ≡ nowhere → contains_user name d ≡ false
unfolding locate contains_user
locate-nowhere name d e = elim (Option-cases (lookup name d.spectators)) [
  | inr (u, found) ↦ cc (rw found at e)
  | inl no_key ↦ elim (Option-cases (take_first (is_named name) d.waitlist)) [
    | inr ((u, others), found) ↦ cc (rw (no_key, found) at e)
    | inl not_waiting ↦ elim (Option-cases (take_first (is_player_named name) d.players)) [
      | inr ((p, others), found) ↦ cc (rw (no_key, not_waiting, found) at e)
      | inl not_playing ↦ rw (contains_key-lookup name d.spectators no_key) (
          any-users name d.waitlist d.players
            (any-take_first (is_named name) d.waitlist not_waiting)
            (any-take_first (is_player_named name) d.players not_playing))
    ]
  ]
]

-- An accepted removal takes out the user, who was there, and nobody else, whatever is counted of the
-- others; a refused one found nobody under the name, and changes nothing.
abbrev pub Removes : Username → GameData → Managed → Type 0
Removes name d (d', Result.ok _) =
    (contains_user name d ≡ true)
    × (census (name_weight name) d' ≡ 0)
    × ((w : Weight) → ((m : Usd) → w name m ≡ 0) → census w d' ≡ census w d)
Removes name d (d', Result.err e) =
    (contains_user name d ≡ false) × (e ≡ user_does_not_exist) × (d' ≡ d)

module _ (name : Username) (d : GameData) (c : IsCensus d) where
  -- From a place with one user of the name.
  taken :
      (pl : Place) (d' : GameData)
      → weigh_place (name_weight name) name pl ≡ 1
      → ((w : Weight) → ((m : Usd) → w name m ≡ 0) → weigh_place w name pl ≡ 0)
      → ((w : Weight) → census w d' + weigh_place w name pl ≡ census w d)
      → Removes name d (d', ok true)
  taken pl d' one others moved = (
    elim (Bool-cases (contains_user name d)) [
      | inl there ↦ there
      | inr free ↦
          absurd (omega (arith, (free-census name d free).1, moved (name_weight name), one))
    ],
    omega (arith, moved (name_weight name), one, c.once name),
    λ w h. omega (arith, moved w, others w h),
  )

  remove_at_once-Removes :
      (pl : Place)
      → Found name d pl
      → (pl ≡ nowhere → contains_user name d ≡ false)
      → Removes name d (remove_at_once name d pl)
  remove_at_once-Removes (spectator u others) found free =
      taken (spectator u others) _ (ground (arith, eq_iff name name)) (λ w h. h u.money)
        (λ w. remove_at_once-census w name d (spectator u others) found)
  remove_at_once-Removes (waitlister u others) found free =
      taken (waitlister u others) _ (ground (arith, eq_iff name name)) (λ w h. h u.money)
        (λ w. remove_at_once-census w name d (waitlister u others) found)
  remove_at_once-Removes (player p others) found free =
      taken (player p others) _ (ground (arith, eq_iff name name)) (λ w h. h p.user.money)
        (λ w. remove_at_once-census w name d (player p others) found)
  remove_at_once-Removes nowhere found free = (free refl, refl, refl)

  -- `remove_user` between two hands, in a well-formed game: an accepted removal finds the user and
  -- leaves no entry under the name, and every sum over the users that does not count this name is
  -- as before; a refused one found nobody under the name, and changes nothing.
  pub remove_user-Removes : Removes name d (remove_user name d)
  unfolding remove_user
  remove_user-Removes =
      remove_at_once-Removes (locate name d) (locate-Found name d) (locate-nowhere name d)
