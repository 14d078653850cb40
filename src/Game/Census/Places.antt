-- ===== src/Game/Census/Places.antt =====
-- The transitions of a hand in private_poker/src/game.rs up to the last betting: nobody changes places.
use Prim.Native.Nat.{compare}
use mathlib.Core.List.{reverse}
use private_poker.Prelude.{
  true, ◌++◌, expect-eq-done, ℕ, zero, suc, ◌+◌, ◌-◌, ◌*◌, ◌≡◌, refl, ◌∙◌, ap, subst, List, [], ◌∷◌,
  map, length, Option, some, get_elem?, set, sum_by, done, expect, >>=-eq-done, done-injective,
  arith, sub_u32,
}
use private_poker.Entities.{Card, Action, Usd, Username}
use private_poker.Entities.Player.{Player}
use private_poker.Entities.Pot
use private_poker.Game.{GameData, range_from}
use private_poker.Game.Queries.{
  prepare_for_next_phase, get_next_action_idx, get_next_action_options, reset_waiting,
}
use private_poker.Game.Blinds.{
  cycle_skip_next, pay_blind, collect_blind, collect_blinds, move_button, with_money,
}
use private_poker.Game.Deal
use private_poker.Game.Deal.{deal_cards, draw}
use private_poker.Game.Betting.{reset_others}
use private_poker.Game.Census.{census, IsCensus, name_weight, weigh_player}
use private_poker.Game.Census.Phases.{same-IsCensus}

abbrev pub names : List Player → List Username
names ps = map (λ p. p.user.name) ps

-- The spectators and the waitlist stay, and the players' names in their order.
pub record SamePlaces (d d' : GameData) : Type 0 where
  pub same_spectators : d'.spectators ≡ d.spectators
  pub same_waitlist : d'.waitlist ≡ d.waitlist
  pub same_names : names d'.players ≡ names d.players

pub refl-SamePlaces : (d : GameData) → SamePlaces d d
refl-SamePlaces d = record { same_spectators = refl; same_waitlist = refl; same_names = refl }

pub trans-SamePlaces : (c d e : GameData) → SamePlaces c d → SamePlaces d e → SamePlaces c e
trans-SamePlaces c d e p q = record {
  same_spectators = q.same_spectators ∙ p.same_spectators;
  same_waitlist = q.same_waitlist ∙ p.same_waitlist;
  same_names = q.same_names ∙ p.same_names;
}

-- The players alone differ, and not in their names.
pub players-SamePlaces :
    (d d' : GameData)
    → d'.spectators ≡ d.spectators
    → d'.waitlist ≡ d.waitlist
    → names d'.players ≡ names d.players
    → SamePlaces d d'
players-SamePlaces d d' e1 e2 e3 = record {
  same_spectators = e1;
  same_waitlist = e2;
  same_names = e3;
}

sum_by-names :
    (k : Username) (ps : List Player)
    → sum_by (weigh_player (name_weight k)) ps ≡ sum_by (λ n. name_weight k n 0) (names ps)
sum_by-names k [] = refl
sum_by-names k (p ∷ ps) = omega (arith, sum_by-names k ps)

pub SamePlaces-IsCensus : (d d' : GameData) → SamePlaces d d' → IsCensus d → IsCensus d'
unfolding census
SamePlaces-IsCensus d d' p c = same-IsCensus d d' c p.same_spectators (λ k.
    rw
      (
        p.same_spectators,
        p.same_waitlist,
        sum_by-names k d'.players,
        p.same_names,
        sum_by-names k d.players,
      )
      refl)

pub names-set :
    (ps : List Player) (i : ℕ) (p q : Player)
    → get_elem? ps i ≡ some p
    → q.user.name ≡ p.user.name
    → names (set ps i q) ≡ names ps
names-set [] i p q e same = refl
names-set (x ∷ ps) zero p q e same = rw same ground (arith, e)
names-set (x ∷ ps) (suc i) p q e same = ap (λ l. x.user.name ∷ l) (names-set ps i p q e same)

names-reset_waiting : (ps : List Player) → names (map reset_waiting ps) ≡ names ps
names-reset_waiting [] = refl
names-reset_waiting (p ∷ ps) = ap (λ l. p.user.name ∷ l) (names-reset_waiting ps)

pub names-reset_others : (i : ℕ) (ps : List Player) → names (reset_others i ps) ≡ names ps
unfolding reset_others
names-reset_others i [] = refl
names-reset_others zero (p ∷ ps) = ap (λ l. p.user.name ∷ l) (names-reset_waiting ps)
names-reset_others (suc i) (p ∷ ps) = ap (λ l. p.user.name ∷ l) (names-reset_others i ps)

pub prepare_for_next_phase-SamePlaces :
    (d : GameData) (r : GameData × Option (List Action))
    → prepare_for_next_phase d ≡ done r
    → SamePlaces d r.0
unfolding prepare_for_next_phase
prepare_for_next_phase-SamePlaces d r e =
    let d' = record d {
      num_players_called = 0;
      players = map reset_waiting d.players;
      next_action_idx = some d.starting_action_idx;
    } in
    let (next, e1, r1) = >>=-eq-done (get_next_action_idx true d') _ e in
    let d'' = record d' { next_action_idx = next } in
    let (options, e2, r2) = >>=-eq-done (get_next_action_options d'') _ r1 in
    subst (λ x. SamePlaces d x.0) (done-injective r2)
      (players-SamePlaces d d'' refl refl (names-reset_waiting d.players))

pub move_button-SamePlaces : (d d' : GameData) → move_button d ≡ done d' → SamePlaces d d'
unfolding move_button
move_button-SamePlaces d d' e =
    let indices = range_from 0 (length d.players) in
    let (big, e1, r1) = >>=-eq-done (cycle_skip_next indices (d.big_blind_idx + 1)) _ e in
    let (start, e2, r2) = >>=-eq-done (cycle_skip_next indices (d.big_blind_idx + 2)) _ r1 in
    let (small, e3, r3) =
      >>=-eq-done (cycle_skip_next (reverse indices) (length d.players - big)) _ r2 in
    subst (SamePlaces d) (done-injective r3) (
      players-SamePlaces d
        (record d {
          big_blind_idx = big;
          starting_action_idx = start;
          next_action_idx = some start;
          small_blind_idx = small;
        })
        refl refl refl)

collect_blind-SamePlaces :
    (i : ℕ) (blind : Usd) (d d' : GameData) → collect_blind i blind d ≡ done d' → SamePlaces d d'
unfolding collect_blind
collect_blind-SamePlaces i blind d d' e =
    let (p, e1, r1) = >>=-eq-done (expect (get_elem? d.players i)) _ e in
    let (paid, e2, r2) =
      >>=-eq-done (pay_blind (compare p.user.money blind) d.num_players_active) _ r1 in
    let q = with_money p paid.0 (sub_u32 p.user.money blind) in
    subst (SamePlaces d) (done-injective r2) (
      players-SamePlaces d
        (record d {
          players = set d.players i q;
          num_players_active = paid.1;
          pot = Pot.bet d.pot i blind;
        })
        refl refl (names-set d.players i p q (expect-eq-done (get_elem? d.players i) p e1) refl))

pub collect_blinds-SamePlaces : (d d' : GameData) → collect_blinds d ≡ done d' → SamePlaces d d'
unfolding collect_blinds
collect_blinds-SamePlaces d d' e =
    let d0 : GameData = record d { pot = Pot.new } in
    let (d1, e1, r1) = >>=-eq-done (collect_blind d.small_blind_idx d.small_blind d0) _ e in
    let (d2, e2, r2) = >>=-eq-done (collect_blind d1.big_blind_idx d1.big_blind d1) _ r1 in
    let p1 = collect_blind-SamePlaces d.small_blind_idx d.small_blind d0 d1 e1 in
    let p2 = collect_blind-SamePlaces d1.big_blind_idx d1.big_blind d1 d2 e2 in
    let p = trans-SamePlaces d0 d1 d2 p1 p2 in
    subst (SamePlaces d) (done-injective r2) (
      players-SamePlaces d (record d2 { num_players_called = 0 }) p.same_spectators p.same_waitlist
        p.same_names)

deal_cards-SamePlaces :
    (count k : ℕ) (d d' : GameData) → deal_cards count k d ≡ done d' → SamePlaces d d'
unfolding deal_cards
deal_cards-SamePlaces zero k d d' e = subst (SamePlaces d) (done-injective e) (refl-SamePlaces d)
deal_cards-SamePlaces (suc count) k d d' e =
    let (i, e1, r1) = >>=-eq-done (cycle_skip_next (range_from 0 (length d.players)) k) _ e in
    let (p, e2, r2) = >>=-eq-done (expect (get_elem? d.players i)) _ r1 in
    let (card, e3, r3) = >>=-eq-done (expect (get_elem? d.deck d.deck_idx)) _ r2 in
    let q = record p { cards = p.cards ++ card ∷ [] } in
    let d1 = record d { players = set d.players i q; deck_idx = d.deck_idx + 1 } in
    trans-SamePlaces d d1 d'
      (players-SamePlaces d d1 refl refl
        (names-set d.players i p q (expect-eq-done (get_elem? d.players i) p e2) refl))
      (deal_cards-SamePlaces count (k + 1) d1 d' r3)

pub deal-SamePlaces :
    (shuffle : List Card → List Card) (d : GameData) (r : GameData × Option (List Action))
    → Deal.deal shuffle d ≡ done r
    → SamePlaces d r.0
unfolding Deal.deal
deal-SamePlaces shuffle d r e =
    let d0 : GameData = record d { deck = shuffle d.deck; deck_idx = 0 } in
    let (d1, e1, r1) = >>=-eq-done (deal_cards (2 * length d.players) d.small_blind_idx d0) _ e in
    let p = deal_cards-SamePlaces (2 * length d.players) d.small_blind_idx d0 d1 e1 in
    let q = prepare_for_next_phase-SamePlaces d1 r r1 in
    players-SamePlaces d r.0 (q.same_spectators ∙ p.same_spectators)
      (q.same_waitlist ∙ p.same_waitlist) (q.same_names ∙ p.same_names)

pub draw-SamePlaces : (d d' : GameData) → draw d ≡ done d' → SamePlaces d d'
unfolding draw
draw-SamePlaces d d' e =
    let (card, e1, r1) = >>=-eq-done (expect (get_elem? d.deck d.deck_idx)) _ e in
    subst (SamePlaces d) (done-injective r1) (
      players-SamePlaces d (record d { board = d.board ++ card ∷ []; deck_idx = d.deck_idx + 1 })
        refl refl refl)

pub flop-SamePlaces : (d d' : GameData) → Deal.flop d ≡ done d' → SamePlaces d d'
unfolding Deal.flop
flop-SamePlaces d d' e =
    let (d1, e1, r1) = >>=-eq-done (draw d) _ e in
    let (d2, e2, r2) = >>=-eq-done (draw d1) _ r1 in
    trans-SamePlaces d d1 d' (draw-SamePlaces d d1 e1)
      (trans-SamePlaces d1 d2 d' (draw-SamePlaces d1 d2 e2) (draw-SamePlaces d2 d' r2))
