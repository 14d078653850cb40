-- ===== src/Game/Money/Users.antt =====
-- The users' operations keep the money balanced.
use private_poker.Prelude.{
  ℕ, ◌+◌, ◌*◌, ◌≡◌, ◌≤◌, refl, ap, arith, List, [], ◌∷◌, sum_by, length, inl, inr,
}
use private_poker.Entities.{Username}
use private_poker.Entities.Usdf.{Usdf, significand, usdf_of, ◌+f◌, ◌-f◌}
use private_poker.Game.{GameData}
use private_poker.Game.Queries.{get_num_users}
use private_poker.Game.Users.{
  new_user, waitlist_user, remove_user, spectate_user, queue_remove_user, queue_spectate_user,
  locate, Place, spectator, waitlister, player, nowhere, remove_at_once, remove_by_queue,
  spectate_at_once, spectate_by_queue, redistribute_user_money,
}
use private_poker.Game.Census.{Weight, census, IsCensus, money_weight}
use private_poker.Game.Census.Users.{
  Found, locate-Found, remove_at_once-census, remove_by_queue-census, spectate_user-census,
  queue_spectate_user-census, waitlist_user-census,
}
use private_poker.Game.Census.Join.{new_user-census}
use private_poker.Game.Money.{IsBalanced, IsSmall, dues, invested}
use private_poker.Game.Money.Donations.{Fills, +f-Fills, -f-Fills, usdf_of-Fills}

abbrev pub unit_weight : Weight
unit_weight name money = 1

length-sum_by {ℓ} : {A : Type ℓ} (xs : List A) → length xs ≡ sum_by (λ _. 1) xs
length-sum_by [] = refl
length-sum_by (x ∷ xs) = omega (arith, length-sum_by xs)

-- The number of users is the census that counts each once.
pub get_num_users-census : (d : GameData) → get_num_users d ≡ census unit_weight d
unfolding get_num_users census
get_num_users-census d =
    omega (arith, length-sum_by d.spectators, length-sum_by d.waitlist, length-sum_by d.players)

-- A leaving user's money, less the buy-in, goes to the donations.
redistribute-Fills :
    (x : Usdf) (a b money buy_in : ℕ)
    → Fills x (a + money) (b + buy_in)
    → a + money ≤ significand
    → b + buy_in ≤ significand
    → Fills (x +f (usdf_of money -f usdf_of buy_in)) a b
redistribute-Fills x a b money buy_in e ha hb =
    +f-Fills x (usdf_of money -f usdf_of buy_in) (a + money) (b + buy_in) buy_in money a b e
      (-f-Fills (usdf_of money) (usdf_of buy_in) 0 money 0 buy_in buy_in money
        (usdf_of-Fills money (omega arith)) (usdf_of-Fills buy_in (omega arith)) (omega arith)
        (omega arith) (omega arith))
      (omega arith) (omega arith) (omega arith)

-- Data with the same pot and settings.
abbrev pub SameTable : GameData → GameData → Type 0
SameTable d d' = (d'.pot ≡ d.pot) × (d'.settings ≡ d.settings)

-- Who leaves with some money leaves the money balanced.
leave-IsBalanced :
    (d d' : GameData) (money : ℕ)
    → IsSmall d
    → IsBalanced d
    → SameTable d d'
    → census money_weight d' + money ≡ census money_weight d
    → census unit_weight d' + 1 ≡ census unit_weight d
    → d'.donations ≡ d.donations +f (usdf_of money -f usdf_of d.settings.buy_in)
    → IsBalanced d'
unfolding census get_num_users
leave-IsBalanced d d' money small balanced (same_pot, same_settings) less fewer e =
    rw (same_pot, same_settings, e)
      (redistribute-Fills d.donations (census money_weight d' + invested d.pot.investments)
        (d.settings.buy_in * get_num_users d') money d.settings.buy_in
        (omega (arith, less, dues_fall, balanced)) (omega (arith, less, small.cash_small))
        (omega (arith, dues_fall, small.dues_small)))
  where
    dues_fall : d.settings.buy_in * get_num_users d' + d.settings.buy_in ≡ dues d
    dues_fall = omega (arith, ap (λ n. d.settings.buy_in * n) counted)
      where
        counted : get_num_users d' + 1 ≡ get_num_users d
        counted = omega (arith, get_num_users-census d, get_num_users-census d', fewer)

-- Nobody comes, goes or gets money.
pub stay-IsBalanced :
    (d d' : GameData)
    → IsBalanced d
    → SameTable d d'
    → ((w : Weight) → census w d' ≡ census w d)
    → d'.donations ≡ d.donations
    → IsBalanced d'
unfolding census get_num_users
stay-IsBalanced d d' balanced (same_pot, same_settings) same e =
    rw (same_pot, same_settings, e, same money_weight, counted) balanced
  where
    counted : get_num_users d' ≡ get_num_users d
    counted = omega (arith, get_num_users-census d, get_num_users-census d', same unit_weight)

-- Who joins with the buy-in keeps the money balanced.
join-IsBalanced :
    (d d' : GameData)
    → IsBalanced d
    → SameTable d d'
    → census money_weight d' ≡ census money_weight d + d.settings.buy_in
    → census unit_weight d' ≡ census unit_weight d + 1
    → d'.donations ≡ d.donations
    → IsBalanced d'
unfolding census get_num_users
join-IsBalanced d d' balanced (same_pot, same_settings) more joined e =
    rw (same_pot, same_settings, e)
      (omega (arith, more, balanced, ap (λ n. d.settings.buy_in * n) counted))
  where
    counted : get_num_users d' ≡ get_num_users d + 1
    counted = omega (arith, get_num_users-census d, get_num_users-census d', joined)

module _ (name : Username) (d : GameData) (small : IsSmall d) (balanced : IsBalanced d) where
  remove_at_once-IsBalanced :
      (pl : Place) → Found name d pl → IsBalanced (remove_at_once name d pl).0
  unfolding redistribute_user_money
  remove_at_once-IsBalanced (spectator u others) h =
      leave-IsBalanced d (remove_at_once name d (spectator u others)).0 u.money small balanced
        (refl, refl) (remove_at_once-census money_weight name d (spectator u others) h)
        (remove_at_once-census unit_weight name d (spectator u others) h) refl
  remove_at_once-IsBalanced (waitlister u others) h =
      leave-IsBalanced d (remove_at_once name d (waitlister u others)).0 u.money small balanced
        (refl, refl) (remove_at_once-census money_weight name d (waitlister u others) h)
        (remove_at_once-census unit_weight name d (waitlister u others) h) refl
  remove_at_once-IsBalanced (player p others) h =
      leave-IsBalanced d (remove_at_once name d (player p others)).0 p.user.money small balanced
        (refl, refl) (remove_at_once-census money_weight name d (player p others) h)
        (remove_at_once-census unit_weight name d (player p others) h) refl
  remove_at_once-IsBalanced nowhere h = balanced

  remove_by_queue-IsBalanced :
      (pl : Place) → Found name d pl → IsBalanced (remove_by_queue name d pl).0
  unfolding redistribute_user_money
  remove_by_queue-IsBalanced (spectator u others) h =
      remove_at_once-IsBalanced (spectator u others) h
  remove_by_queue-IsBalanced (waitlister u others) h =
      remove_at_once-IsBalanced (waitlister u others) h
  remove_by_queue-IsBalanced (player p others) h =
      stay-IsBalanced d (remove_by_queue name d (player p others)).0 balanced (refl, refl)
        (λ w. omega (arith, remove_by_queue-census w name d (player p others) h)) refl
  remove_by_queue-IsBalanced nowhere h = balanced

  -- A call of `remove_user` between two hands, accepted or refused, keeps the money balanced: the
  -- leaving user's stack less the buy-in goes to the donations. The condition: the money and the
  -- buy-ins present are amounts for which an f32 is exact.
  pub remove_user-IsBalanced : IsBalanced (remove_user name d).0
  unfolding remove_user
  remove_user-IsBalanced = remove_at_once-IsBalanced (locate name d) (locate-Found name d)

  -- A removal requested during a hand keeps the money balanced, whether the user is only queued or
  -- leaves. The condition: the money and the buy-ins present are amounts for which an f32 is
  -- exact.
  pub queue_remove_user-IsBalanced : IsBalanced (queue_remove_user name d).0
  unfolding queue_remove_user
  queue_remove_user-IsBalanced =
      ground (arith, balanced, remove_by_queue-IsBalanced (locate name d) (locate-Found name d))

-- `spectate_user` leaves the table's data alone.
spectate_at_once-SameTable :
    (name : Username) (d : GameData) (pl : Place)
    → SameTable d (spectate_at_once name d pl).0
      × ((spectate_at_once name d pl).0.donations ≡ d.donations)
spectate_at_once-SameTable name d (spectator u others) = ((refl, refl), refl)
spectate_at_once-SameTable name d (waitlister u others) = ((refl, refl), refl)
spectate_at_once-SameTable name d (player p others) = ((refl, refl), refl)
spectate_at_once-SameTable name d nowhere = ((refl, refl), refl)

spectate_by_queue-SameTable :
    (name : Username) (d : GameData) (pl : Place)
    → SameTable d (spectate_by_queue name d pl).0
      × ((spectate_by_queue name d pl).0.donations ≡ d.donations)
spectate_by_queue-SameTable name d (spectator u others) = ((refl, refl), refl)
spectate_by_queue-SameTable name d (waitlister u others) = ((refl, refl), refl)
spectate_by_queue-SameTable name d (player p others) = ((refl, refl), refl)
spectate_by_queue-SameTable name d nowhere = ((refl, refl), refl)

pub spectate_user-SameTable :
    (name : Username) (d : GameData)
    → SameTable d (spectate_user name d).0 × ((spectate_user name d).0.donations ≡ d.donations)
unfolding spectate_user
spectate_user-SameTable name d = ground (arith, spectate_at_once-SameTable name d (locate name d))

module _ (name : Username) (d : GameData) (balanced : IsBalanced d) where
  pub spectate_user-IsBalanced : IsBalanced (spectate_user name d).0
  spectate_user-IsBalanced =
      stay-IsBalanced d (spectate_user name d).0 balanced (spectate_user-SameTable name d).0
        (λ w. spectate_user-census w name d) (spectate_user-SameTable name d).1

  pub queue_spectate_user-IsBalanced : IsBalanced (queue_spectate_user name d).0
  queue_spectate_user-IsBalanced =
      let same : SameTable d (queue_spectate_user name d).0
          × ((queue_spectate_user name d).0.donations ≡ d.donations) =
        unfold queue_spectate_user in
        (ground (arith, spectate_by_queue-SameTable name d (locate name d))) in
      stay-IsBalanced d (queue_spectate_user name d).0 balanced same.0
        (λ w. queue_spectate_user-census w name d) same.1

  pub waitlist_user-IsBalanced : IsCensus d → IsBalanced (waitlist_user name d).0
  waitlist_user-IsBalanced c =
      let same : SameTable d (waitlist_user name d).0
          × ((waitlist_user name d).0.donations ≡ d.donations) =
        unfold waitlist_user in (ground arith) in
      stay-IsBalanced d (waitlist_user name d).0 balanced same.0
        (λ w. waitlist_user-census w name d c.is_map c.is_keyed) same.1

  -- A call of `new_user`, accepted or refused, keeps the money balanced: a new user brings the
  -- buy-in.
  pub new_user-IsBalanced : IsBalanced (new_user name d).0
  new_user-IsBalanced = elim (new_user-census name d) [
    | inl (_, stays) ↦ stay-IsBalanced d (new_user name d).0 balanced same.0 stays same.1
    | inr (_, _, _, joins) ↦
        join-IsBalanced d (new_user name d).0 balanced same.0 (joins money_weight)
          (joins unit_weight) same.1
  ]
    where
      same : SameTable d (new_user name d).0 × ((new_user name d).0.donations ≡ d.donations)
      same = unfold new_user in (ground arith)
