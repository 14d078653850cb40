-- ===== src/Game/Census/Gifts.antt =====
-- Dividing the donations among the users in private_poker/src/game.rs: everybody keeps the place.
use private_poker.Prelude.{
  ℕ, ◌≡◌, refl, ◌∙◌, subst, String, List, [], ◌∷◌, map, sum_by, arith, ltb, ◌&&◌, done, >>=-eq-done,
  done-injective, Bool-cases, inl, inr,
}
use private_poker.Prelude.Int.{pos, ltb_ℤ}
use private_poker.Entities.{User, Usd}
use private_poker.Entities.NameMap.{contains_key}
use private_poker.Entities.NameMap.Laws.{IsMap}
use private_poker.Entities.Usdf.{usd_of}
use private_poker.Game.{GameData}
use private_poker.Game.Queries.{get_num_users}
use private_poker.Game.Showdown.{checked_div}
use private_poker.Game.Cleanup.{give, give_entry, give_player, take_donations, divide_donations}
use private_poker.Game.Census.{census, IsCensus, name_weight, weigh_entry, weigh_user, weigh_player}
use private_poker.Game.Census.Lists.{IsKeyed}

contains_key-give_entry :
    (k : String) (amount : Usd) (m : List (String × User))
    → contains_key k (map (give_entry amount) m) ≡ contains_key k m
contains_key-give_entry k amount [] = refl
contains_key-give_entry k amount (e ∷ m) = ground (arith, contains_key-give_entry k amount m)

give_entry-IsMap :
    (amount : Usd) (m : List (String × User)) → IsMap m → IsMap (map (give_entry amount) m)
give_entry-IsMap amount [] h = tt
give_entry-IsMap amount (e ∷ m) h =
    (contains_key-give_entry e.0 amount m ∙ h.0, give_entry-IsMap amount m h.1)

give_entry-IsKeyed :
    (amount : Usd) (m : List (String × User)) → IsKeyed m → IsKeyed (map (give_entry amount) m)
give_entry-IsKeyed amount [] h = tt
give_entry-IsKeyed amount (e ∷ m) h = (h.0, give_entry-IsKeyed amount m h.1)

-- A map that leaves the weights alone.
sum_by-map_same {ℓ} :
    {A : Type ℓ} (f : A → ℕ) (g : A → A) (xs : List A)
    → ((x : A) → f (g x) ≡ f x)
    → sum_by f (map g xs) ≡ sum_by f xs
sum_by-map_same f g [] h = refl
sum_by-map_same f g (x ∷ xs) h = omega (arith, h x, sum_by-map_same f g xs h)

given-IsCensus :
    (amount : Usd) (d : GameData)
    → IsCensus d
    → IsCensus (record d {
      spectators = map (give_entry amount) d.spectators;
      waitlist = map (give amount) d.waitlist;
      players = map (give_player amount) d.players;
      donations = take_donations (get_num_users d) amount d.donations;
    })
unfolding census
given-IsCensus amount d c = record {
  is_map = give_entry-IsMap amount d.spectators c.is_map;
  is_keyed = give_entry-IsKeyed amount d.spectators c.is_keyed;
  once = λ k. omega (
    arith,
    c.once k,
    sum_by-map_same (weigh_entry (name_weight k)) (give_entry amount) d.spectators (λ e. refl),
    sum_by-map_same (weigh_user (name_weight k)) (give amount) d.waitlist (λ u. refl),
    sum_by-map_same (weigh_player (name_weight k)) (give_player amount) d.players (λ p. refl),
  );
}

pub divide_donations-IsCensus :
    (d d' : GameData) → divide_donations d ≡ done d' → IsCensus d → IsCensus d'
unfolding divide_donations
divide_donations-IsCensus d d' e c =
    elim (Bool-cases (ltb 0 (get_num_users d) && ltb_ℤ (pos 0) d.donations)) [
      | inr nothing ↦ subst IsCensus (done-injective (rw nothing at e)) c
      | inl divides ↦
          let (amount, e1, r1) =
            >>=-eq-done (checked_div (usd_of d.donations) (get_num_users d)) _ (rw divides at e) in
          subst IsCensus (done-injective r1) (given-IsCensus amount d c)
    ]
