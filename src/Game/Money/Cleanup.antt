-- ===== src/Game/Money/Cleanup.antt =====
-- The phases after a hand keep the money balanced: the queued players leave, and the donations are
-- divided among the users.
use private_poker.Prelude.{
  ℕ, zero, suc, ◌+◌, ◌*◌, ◌≡◌, ◌≤◌, ◌<◌, refl, ap, List, [], ◌∷◌, map, arith, sum_by, length,
  length-map, ltb, u32_mod, add_u32, done, >>=-eq-done, done-injective, subst, true, Bool-cases,
  inl, inr, ◌&&◌,
}
use private_poker.Prelude.Int.{pos_part, neg_part, pos, negsuc, ltb_ℤ}
use private_poker.Entities.{Usd, Username}
use private_poker.Entities.NameSet.{NameSet}
use private_poker.Entities.Usdf.{Usdf, significand, usdf_of, usd_of, ◌-f◌}
use private_poker.Game.{GameData}
use private_poker.Game.Queries.{get_num_users}
use private_poker.Game.Users.{
  remove_user, remove_at_once, redistribute_user_money, locate, Place, spectator, waitlister,
  player, nowhere,
}
use private_poker.Game.Showdown.{checked_div}
use private_poker.Game.Cleanup.{
  remove_queued, remove_players, give, give_player, give_entry, take_donations, divide_donations,
}
use private_poker.Game.Census.{census, money_weight, weigh_player, weigh_user, weigh_entry}
use private_poker.Game.Census.Users.{locate-Found, remove_at_once-census}
use private_poker.Game.Money.{IsBalanced, IsSmall, cash, dues}
use private_poker.Game.Money.Donations.{Fills, -f-Fills, usdf_of-Fills}
use private_poker.Game.Money.Users.{
  unit_weight, get_num_users-census, remove_user-IsBalanced, SameTable,
}
use private_poker.Game.Money.Showdown.{checked_div_bounds}

scaled_le : (b x y : ℕ) → x ≤ y → b * x ≤ b * y
scaled_le b x y h = grind arith

-- With no more users and no more money the amounts stay small.
shrunk-IsSmall :
    (d d' : GameData)
    → IsSmall d
    → SameTable d d'
    → census money_weight d' ≤ census money_weight d
    → census unit_weight d' ≤ census unit_weight d
    → IsSmall d'
unfolding census get_num_users
shrunk-IsSmall d d' small (same_pot, same_settings) less fewer = record {
  cash_small = rw same_pot (omega (arith, less, small.cash_small));
  dues_small =
      rw same_settings (omega (arith, scaled_le d.settings.buy_in _ _ fewer', small.dues_small));
}
  where
    fewer' : get_num_users d' ≤ get_num_users d
    fewer' = omega (arith, get_num_users-census d, get_num_users-census d', fewer)

remove_at_once-SameTable :
    (name : Username) (d : GameData) (pl : Place) → SameTable d (remove_at_once name d pl).0
unfolding redistribute_user_money
remove_at_once-SameTable name d (spectator u others) = (refl, refl)
remove_at_once-SameTable name d (waitlister u others) = (refl, refl)
remove_at_once-SameTable name d (player p others) = (refl, refl)
remove_at_once-SameTable name d nowhere = (refl, refl)

remove_user-IsSmall : (name : Username) (d : GameData) → IsSmall d → IsSmall (remove_user name d).0
unfolding remove_user
remove_user-IsSmall name d small =
    let pl = locate name d in
    let found = locate-Found name d in
    shrunk-IsSmall d (remove_at_once name d pl).0 small (remove_at_once-SameTable name d pl)
      (omega (arith, remove_at_once-census money_weight name d pl found))
      (omega (arith, remove_at_once-census unit_weight name d pl found))

remove_queued-IsBalanced :
    (names : NameSet) (d : GameData) → IsSmall d → IsBalanced d → IsBalanced (remove_queued names d)
unfolding remove_queued census get_num_users
remove_queued-IsBalanced [] d small balanced = balanced
remove_queued-IsBalanced (name ∷ names) d small balanced =
    let d' : GameData = record d { players_to_remove = names } in
    let small' : IsSmall d' = record {
      cash_small = small.cash_small;
      dues_small = small.dues_small;
    } in
    remove_queued-IsBalanced names (remove_user name d').0 (remove_user-IsSmall name d' small')
      (remove_user-IsBalanced name d' small' balanced)

-- Removing all queued users keeps the money balanced. The condition: the money and the buy-ins
-- present are amounts for which an f32 is exact.
pub remove_players-IsBalanced :
    (d : GameData) → IsSmall d → IsBalanced d → IsBalanced (remove_players d)
unfolding remove_players
remove_players-IsBalanced d small balanced =
    remove_queued-IsBalanced d.players_to_remove d small balanced

-- The same amount for everybody, as long as the sum fits a `u32`.
give-sum {ℓ} :
    {A : Type ℓ} (f : A → ℕ) (g : A → A) (amount : Usd)
    → ((a : A) → f (g a) ≡ add_u32 (f a) amount)
    → (xs : List A) → sum_by f xs + length xs * amount < u32_mod
    → sum_by f (map g xs) ≡ sum_by f xs + length xs * amount
give-sum f g amount e [] h = omega arith
give-sum f g amount e (x ∷ xs) h = omega (arith, e x, give-sum f g amount e xs (omega arith))

take_donations-Fills :
    (n : ℕ) (amount : Usd) (x : Usdf) (a b : ℕ)
    → Fills x a b
    → a + n * amount ≤ significand
    → b ≤ significand
    → Fills (take_donations n amount x) (a + n * amount) b
unfolding take_donations
take_donations-Fills zero amount x a b e ha hb = omega (arith, e)
take_donations-Fills (suc n) amount x a b e ha hb = omega (
  arith,
  take_donations-Fills n amount (x -f usdf_of amount) (a + amount) b
      (-f-Fills x (usdf_of amount) a b 0 amount (a + amount) b e
        (usdf_of-Fills amount (omega arith)) (omega arith) (omega arith) hb)
      (omega arith) hb,
)

-- A positive value is not saturated upwards by the cast.
usd_of-le : (x : Usdf) → usd_of x ≤ pos_part x
usd_of-le (pos n) = ground arith
usd_of-le (negsuc n) = omega arith

neg_part_zero : (x : Usdf) → ltb_ℤ (pos 0) x ≡ true → neg_part x ≡ 0
neg_part_zero (pos n) h = refl
neg_part_zero (negsuc n) h = ground arith

-- The data once everybody has got the amount.
abbrev divided : Usd → GameData → GameData
divided amount d = record d {
  spectators = map (give_entry amount) d.spectators;
  waitlist = map (give amount) d.waitlist;
  players = map (give_player amount) d.players;
  donations = take_donations (get_num_users d) amount d.donations;
}

module _ (amount : Usd) (d : GameData) where
  get_num_users-divided : get_num_users (divided amount d) ≡ get_num_users d
  unfolding get_num_users
  get_num_users-divided = omega (
    arith,
    length-map d.spectators (give_entry amount),
    length-map d.waitlist (give amount),
    length-map d.players (give_player amount),
  )

  census-divided :
      census money_weight d + get_num_users d * amount < u32_mod
      → census money_weight (divided amount d) ≡ census money_weight d + get_num_users d * amount
  unfolding census get_num_users
  census-divided h = omega (
    arith,
    give-sum (weigh_entry money_weight) (give_entry amount) amount (λ e. refl) d.spectators
        (omega arith),
    give-sum (weigh_user money_weight) (give amount) amount (λ u. refl) d.waitlist (omega arith),
    give-sum (weigh_player money_weight) (give_player amount) amount (λ p. refl) d.players
        (omega arith),
  )

  divided-IsBalanced :
      IsSmall d
      → IsBalanced d
      → neg_part d.donations ≡ 0
      → get_num_users d * amount ≤ pos_part d.donations
      → IsBalanced (divided amount d)
  divided-IsBalanced small balanced positive within =
      let counted = census-divided (omega (arith, balanced, positive, within, small.dues_small)) in
      let left =
        take_donations-Fills (get_num_users d) amount d.donations (cash d) (dues d) balanced
          (omega (arith, balanced, positive, within, small.dues_small)) small.dues_small in
      omega (arith, counted, left, ap (λ n. d.settings.buy_in * n) get_num_users-divided)

-- Dividing the donations keeps the money balanced: what the users get is what the donations lose.
-- The conditions: the division ends, and the money and the buy-ins present are amounts for which
-- an f32 is exact.
pub divide_donations-IsBalanced :
    (d d' : GameData) → divide_donations d ≡ done d' → IsSmall d → IsBalanced d → IsBalanced d'
unfolding divide_donations
divide_donations-IsBalanced d d' e small balanced =
    elim (Bool-cases (ltb 0 (get_num_users d) && ltb_ℤ (pos 0) d.donations)) [
      | inr nothing ↦ subst IsBalanced (done-injective (rw nothing at e)) balanced
      | inl divides ↦
          let (amount, e1, r1) =
            >>=-eq-done (checked_div (usd_of d.donations) (get_num_users d)) _ (rw divides at e) in
          subst IsBalanced (done-injective r1) (
            divided-IsBalanced amount d small balanced (neg_part_zero d.donations (ground arith)) (
              omega (
                arith,
                checked_div_bounds (usd_of d.donations) (get_num_users d) amount e1,
                usd_of-le d.donations,
              )))
    ]
