-- ===== src/Game/Census/Joined.antt =====
-- Where a user stands after a request that private_poker/src/game.rs accepts.
use Prim.Native.Nat.{Ordering}
use Prim.Native.String.{compare}
use text.Mathlib.TextEquality.{path_by_compare}
use private_poker.Prelude.{
  ◌≡◌, refl, Bool, Bool-cases, Option-cases, inl, inr, ◌⊎◌, true, false, String, List, [], ◌∷◌,
  ◌++◌, some, arith, eq_iff, any, str_eq, ◌||◌, ◌&&◌,
}
use private_poker.Entities.{Username}
use private_poker.Entities.Player.{Player}
use private_poker.Entities.NameMap.{lookup, contains_key, insert}
use private_poker.Entities.NameMap.Laws.{contains_key-lookup, contains_key-remove_self}
use private_poker.Entities.NameSet
use private_poker.Game.{GameData, Result}
use private_poker.Game.Queries.{contains_user, contains_waitlister, contains_player}
use private_poker.Game.Users.{
  new_user, waitlist_user, spectate_user, queue_spectate_user, queue_remove_user, show_hand,
  show_first, locate, Place, spectator, waitlister, player, nowhere, is_player_named,
  spectate_at_once, spectate_by_queue, remove_by_queue,
}
use private_poker.Game.Census.{IsCensus, census, name_weight}
use private_poker.Game.Census.Lists.{lookup-IsKeyed}
use private_poker.Game.Census.Users.{Found, locate-Found, remove_by_queue-census}

contains_key-insert_self {ℓ} :
    {V : Type ℓ} (k : String) (v : V) (m : List (String × V)) → contains_key k (insert k v m) ≡ true
contains_key-insert_self k v [] = ground (arith, eq_iff k k)
contains_key-insert_self k v (e ∷ m) = ground (arith, eq_iff k k, contains_key-insert_self k v m)

lookup-some_key {ℓ} :
    {V : Type ℓ} (k : String) (v : V) (m : List (String × V))
    → lookup k m ≡ some v
    → contains_key k m ≡ true
lookup-some_key k v [] e = cc
lookup-some_key k v (x ∷ m) e = ground (arith, lookup-some_key k v m)

Ordering-cases : (o : Ordering) → (o ≡ Ordering.lt) ⊎ (o ≡ Ordering.eq) ⊎ (o ≡ Ordering.gt)
Ordering-cases Ordering.lt = inl refl
Ordering-cases Ordering.eq = inr (inl refl)
Ordering-cases Ordering.gt = inr (inr refl)

contains-insert_self :
    (k : String) (m : List String) → NameSet.contains k (NameSet.insert k m) ≡ true
contains-insert_self k [] = ground (arith, eq_iff k k)
contains-insert_self k (x ∷ m) = elim (Ordering-cases (compare k x)) [
  | inl lt ↦ ground (arith, eq_iff k k)
  | inr (inl eq) ↦ ground (arith, eq_iff k x, path_by_compare k x eq)
  | inr (inr gt) ↦ ground (arith, contains-insert_self k m)
]

any-snoc {ℓ} :
    {A : Type ℓ} (p : A → Bool) (xs : List A) (x : A) → p x ≡ true → any p (xs ++ x ∷ []) ≡ true
any-snoc p [] x h = ground arith
any-snoc p (y ∷ xs) x h = ground (arith, any-snoc p xs x h)

-- What holds of the data where an operation is accepted.
abbrev pub Accepted {ℓ} : {A : Type ℓ} → (GameData → Type 0) → GameData × Result A → Type 0
Accepted P (d', Result.ok _) = P d'
Accepted P (d', Result.err _) = Unit

module _ (name : Username) where
  -- Who plays waits for a seat or has one, and does not watch.
  abbrev pub Plays : GameData → Type 0
  Plays d' =
      ((contains_waitlister name d' || contains_player name d') ≡ true)
      × (contains_key name d'.spectators ≡ false)

  -- Who watches is a spectator, or a player who becomes one after the hand.
  abbrev pub Watches : GameData → Type 0
  Watches d' =
      (contains_key name d'.spectators || NameSet.contains name d'.players_to_spectate) ≡ true

  -- Who leaves has no entry, or is a player who is taken out after the hand.
  abbrev pub Leaves : GameData → Type 0
  Leaves d' =
      (NameSet.contains name d'.players_to_remove ≡ true) ⊎ (census (name_weight name) d' ≡ 0)

  -- Some player of the name shows the cards.
  abbrev pub Shows : GameData → Type 0
  Shows d' = any (λ p. is_player_named name p && p.showing) d'.players ≡ true

module _ (name : Username) (d : GameData) where
  pub new_user-contains : Accepted (λ d'. contains_user name d' ≡ true) (new_user name d)
  unfolding new_user contains_user
  new_user-contains = elim (Bool-cases (contains_user name d)) [
    | inl known ↦ ground arith
    | inr free ↦ ground (
      arith,
      contains_key-insert_self name (record { name = name; money = d.settings.buy_in })
          d.spectators,
    )
  ]

  pub waitlist_user-Plays : IsCensus d → Accepted (Plays name) (waitlist_user name d)
  unfolding waitlist_user contains_waitlister contains_player
  waitlist_user-Plays c = elim (Option-cases (lookup name d.spectators)) [
    | inl missing ↦ ground (arith, contains_key-lookup name d.spectators missing)
    | inr (u, e) ↦
        let own : str_eq u.name name ≡ true =
          (eq_iff u.name name).1 (lookup-IsKeyed name u d.spectators c.is_keyed e) in
        ground (
          arith,
          any-snoc (λ x. str_eq x.name name) d.waitlist u own,
          contains_key-remove_self name d.spectators c.is_map,
        )
  ]

  spectate_at_once-Watches :
      (pl : Place) → Found name d pl → Accepted (Watches name) (spectate_at_once name d pl)
  spectate_at_once-Watches (spectator u others) (e, e') =
      ground (arith, lookup-some_key name u d.spectators e)
  spectate_at_once-Watches (waitlister u others) h =
      ground (arith, contains_key-insert_self name u d.spectators)
  spectate_at_once-Watches (player p others) h =
      ground (arith, contains_key-insert_self name p.user d.spectators)
  spectate_at_once-Watches nowhere h = tt

  spectate_by_queue-Watches :
      (pl : Place) → Found name d pl → Accepted (Watches name) (spectate_by_queue name d pl)
  spectate_by_queue-Watches (spectator u others) h = spectate_at_once-Watches (spectator u others) h
  spectate_by_queue-Watches (waitlister u others) h =
      spectate_at_once-Watches (waitlister u others) h
  spectate_by_queue-Watches (player p others) h =
      ground (arith, contains-insert_self name d.players_to_spectate)
  spectate_by_queue-Watches nowhere h = tt

  pub spectate_user-Watches : Accepted (Watches name) (spectate_user name d)
  unfolding spectate_user
  spectate_user-Watches =
      ground (arith, spectate_at_once-Watches (locate name d) (locate-Found name d))

  pub queue_spectate_user-Watches : Accepted (Watches name) (queue_spectate_user name d)
  unfolding queue_spectate_user
  queue_spectate_user-Watches =
      ground (arith, spectate_by_queue-Watches (locate name d) (locate-Found name d))

  remove_by_queue-Leaves :
      IsCensus d
      → (pl : Place) → Found name d pl
      → Accepted (Leaves name) (remove_by_queue name d pl)
  remove_by_queue-Leaves c (spectator u others) h = inr (
      ground (
        arith,
        remove_by_queue-census (name_weight name) name d (spectator u others) h,
        c.once name,
        eq_iff name name,
      ))
  remove_by_queue-Leaves c (waitlister u others) h = inr (
      ground (
        arith,
        remove_by_queue-census (name_weight name) name d (waitlister u others) h,
        c.once name,
        eq_iff name name,
      ))
  remove_by_queue-Leaves c (player p others) h = inl (contains-insert_self name d.players_to_remove)
  remove_by_queue-Leaves c nowhere h = tt

  pub queue_remove_user-Leaves : IsCensus d → Accepted (Leaves name) (queue_remove_user name d)
  unfolding queue_remove_user
  queue_remove_user-Leaves c = elim (Bool-cases (NameSet.contains name d.players_to_remove)) [
    | inl queued ↦ rw queued (inl queued)
    | inr new ↦ rw new (remove_by_queue-Leaves c (locate name d) (locate-Found name d))
  ]

  show_first-Shows :
      (ps ps' : List Player) (before : Bool)
      → show_first name ps ≡ some (before, ps')
      → any (λ p. is_player_named name p && p.showing) ps' ≡ true
  unfolding show_first
  show_first-Shows [] ps' before e = cc
  show_first-Shows (p ∷ ps) ps' before e = elim (Bool-cases (str_eq p.user.name name)) [
    | inl own ↦ ground arith
    | inr other ↦ elim (Option-cases (show_first name ps)) [
      | inl nobody ↦ ground arith
      | inr ((b, qs), found) ↦ ground (arith, show_first-Shows ps qs b found)
    ]
  ]

  pub show_hand-Shows : Accepted (Shows name) (show_hand name d)
  unfolding show_hand
  show_hand-Shows = elim (Option-cases (show_first name d.players)) [
    | inl nobody ↦ ground arith
    | inr ((before, ps'), found) ↦ ground (arith, show_first-Shows d.players ps' before found)
  ]
