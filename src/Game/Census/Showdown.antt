-- ===== src/Game/Census/Showdown.antt =====
-- The showdown, the blinds' update and `show_hand` in private_poker/src/game.rs: nobody changes places.
use mathlib.Core.List.{reverse}
use mathlib.Core.Option.{some-injective}
use private_poker.Prelude.{
  true, Bool, ap, str_eq, Option-cases, ℕ, ◌-◌, ◌≡◌, refl, ◌∙◌, subst, not, List, [], ◌∷◌, length,
  some, get_elem?, set, ltb, done, expect, expect-eq-done, >>=-eq-done, done-injective, Bool-cases,
  inl, inr, count_by, ◌++◌, u32_mod,
}
use private_poker.Entities.{Usd, Username, is_fold}
use private_poker.Entities.Player.{Player}
use private_poker.Entities.Pot.{Investments}
use private_poker.Entities.Usdf.{Usdf, usdf_of, ◌-f◌, ◌+f◌}
use private_poker.Functional.Argmax.{argmax}
use private_poker.Game.{GameData}
use private_poker.Game.Showdown
use private_poker.Game.Showdown.{
  show_invested, HandEvalCache, distribute_sorted, checked_div, split_pot, gather, pay_winners,
  sort_investments, win, remove_null,
}
use private_poker.Game.Cleanup.{update_blinds, min_stack, with_blinds}
use private_poker.Game.Users.{show_first, show_hand}
use private_poker.Game.Census.Places.{
  names, SamePlaces, refl-SamePlaces, players-SamePlaces, names-set,
}

names-show_invested :
    (m : Investments) (ps ps' : List Player) → show_invested m ps ≡ done ps' → names ps' ≡ names ps
unfolding show_invested
names-show_invested [] ps ps' e = subst (λ x. names x ≡ names ps) (done-injective e) refl
names-show_invested ((i, x) ∷ m) ps ps' e =
    let (p, e1, r1) = >>=-eq-done (expect (get_elem? ps i)) _ e in
    elim (Bool-cases (is_fold p.state)) [
      | inl folded ↦ names-show_invested m ps ps' (rw folded at r1)
      | inr shows ↦
          names-show_invested m (set ps i (record p { showing = true })) ps' (rw shows at r1)
          ∙ names-set ps i p (record p { showing = true }) (expect-eq-done (get_elem? ps i) p e1)
              refl
    ]

pub show_hands-SamePlaces : (d d' : GameData) → Showdown.show_hands d ≡ done d' → SamePlaces d d'
unfolding Showdown.show_hands
show_hands-SamePlaces d d' e =
    elim (Bool-cases (ltb 1 (count_by (λ p. not (is_fold p.state)) d.players))) [
      | inr alone ↦ subst (SamePlaces d) (done-injective (rw alone at e)) (refl-SamePlaces d)
      | inl many ↦
          let (ps, e1, r1) =
            >>=-eq-done (show_invested d.pot.investments d.players) _ (rw many at e) in
          subst (SamePlaces d) (done-injective r1) (
            players-SamePlaces d (record d { players = ps }) refl refl
              (names-show_invested d.pot.investments d.players ps e1))
    ]

names-pay_winners :
    (split : Usd) (seats winners : List ℕ) (ps : List Player) (rest : Usdf) (r : List Player × Usdf)
    → pay_winners split seats winners ps rest ≡ done r
    → names r.0 ≡ names ps
unfolding pay_winners
names-pay_winners split seats [] ps rest r e =
    subst (λ x. names x.0 ≡ names ps) (done-injective e) refl
names-pay_winners split seats (w ∷ winners) ps rest r e =
    let (i, e1, r1) = >>=-eq-done (expect (get_elem? seats w)) _ e in
    let (p, e2, r2) = >>=-eq-done (expect (get_elem? ps i)) _ r1 in
    names-pay_winners split seats winners (set ps i (win split p)) (rest -f usdf_of split) r r2
    ∙ names-set ps i p (win split p) (expect-eq-done (get_elem? ps i) p e2) refl

distribute_sorted-SamePlaces :
    (m : Investments) (d : GameData) (cache : HandEvalCache) (r : GameData × HandEvalCache)
    → distribute_sorted m d cache ≡ done r
    → SamePlaces d r.0
unfolding distribute_sorted
distribute_sorted-SamePlaces [] d cache r e =
    subst (λ x. SamePlaces d x.0) (done-injective e) (refl-SamePlaces d)
distribute_sorted-SamePlaces (x ∷ m) d cache r e =
    let (s, e1, r1) = >>=-eq-done (split_pot x.1 d.players (x ∷ m)) _ e in
    let (g, e2, r2) =
      >>=-eq-done
        (gather s.pot_call d.players d.board (reverse s.inside) (record {
          pot_size = 0;
          seats_in_pot = [];
          hands_in_pot = [];
          cache = cache;
          remaining = [];
        }))
        _ r1 in
    let winners = argmax g.hands_in_pot in
    let (split, e3, r3) = >>=-eq-done (checked_div g.pot_size (length winners)) _ r2 in
    let (paid, e4, r4) =
      >>=-eq-done (pay_winners split g.seats_in_pot winners d.players (usdf_of g.pot_size)) _ r3 in
    subst (λ y. SamePlaces d y.0) (done-injective r4)
      (players-SamePlaces d
        (record d {
          players = paid.0;
          donations = d.donations +f paid.1;
          pot = record { investments = s.outside ++ g.remaining };
        })
        refl refl
        (names-pay_winners split g.seats_in_pot winners d.players (usdf_of g.pot_size) paid e4))

pub distribute-SamePlaces :
    (d : GameData) (cache : HandEvalCache) (r : GameData × HandEvalCache)
    → Showdown.distribute d cache ≡ done r
    → SamePlaces d r.0
unfolding Showdown.distribute
distribute-SamePlaces d cache r e =
    let (r', e1, r1) =
      >>=-eq-done (distribute_sorted (sort_investments d.pot.investments) d cache) _ e in
    let p = distribute_sorted-SamePlaces (sort_investments d.pot.investments) d cache r' e1 in
    subst (λ y. SamePlaces d y.0) (done-injective r1)
      (players-SamePlaces d (remove_null r'.0) p.same_spectators p.same_waitlist p.same_names)

pub update_blinds-SamePlaces : (d d' : GameData) → update_blinds d ≡ done d' → SamePlaces d d'
unfolding update_blinds
update_blinds-SamePlaces d d' e = elim (Bool-cases (ltb (min_stack d) (u32_mod - 1))) [
  | inr none_left ↦ subst (SamePlaces d) (done-injective (rw none_left at e)) (refl-SamePlaces d)
  | inl some_left ↦
      let (multiple, e1, r1) =
        >>=-eq-done (checked_div (min_stack d) d.settings.buy_in) _ (rw some_left at e) in
      subst (SamePlaces d) (done-injective r1)
        (players-SamePlaces d (with_blinds _ d) refl refl refl)
]

names-show_first :
    (name : Username) (ps qs : List Player) (shown : Bool)
    → show_first name ps ≡ some (shown, qs)
    → names qs ≡ names ps
unfolding show_first
names-show_first name [] qs shown e = cc
names-show_first name (p ∷ ps) qs shown e = elim (Bool-cases (str_eq p.user.name name)) [
  | inl here ↦ subst (λ x. names x.1 ≡ names (p ∷ ps)) (some-injective _ _ (rw here at e)) refl
  | inr later ↦ elim (Option-cases (show_first name ps)) [
    | inl missing ↦ cc (rw (later, missing) at e)
    | inr ((b, rest), found) ↦
        subst (λ x. names x.1 ≡ names (p ∷ ps)) (some-injective _ _ (rw (later, found) at e))
          (ap (λ l. p.user.name ∷ l) (names-show_first name ps rest b found))
  ]
]

pub show_hand-SamePlaces : (name : Username) (d : GameData) → SamePlaces d (show_hand name d).0
unfolding show_hand
show_hand-SamePlaces name d = elim (Option-cases (show_first name d.players)) [
  | inl missing ↦ rw (missing, show_hand) (refl-SamePlaces d)
  | inr ((shown, ps), found) ↦ elim (Bool-cases shown) [
    | inl already ↦ rw (found, already, show_hand) (refl-SamePlaces d)
    | inr first ↦
        rw (found, first, show_hand)
          (players-SamePlaces d (record d { players = ps }) refl refl
            (names-show_first name d.players ps shown found))
  ]
]
