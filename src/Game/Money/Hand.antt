-- ===== src/Game/Money/Hand.antt =====
-- The blinds and the bets move money from the stacks to the pot and lose none.
use Prim.Native.Nat.{compare}
use private_poker.Prelude.{
  ℕ, zero, suc, ◌≡◌, ◌≤◌, ◌<◌, refl, ap, ◌∙◌, List, [], ◌∷◌, map, arith, sum_by, sum_by-set,
  sum_by-get_elem?, length, length-set, length-map, subst, done-injective, some, get_elem?, set,
  u32_mod, sub_u32, done, expect, >>=-eq-done,
}
use private_poker.Prelude.Int.{pos_part, neg_part}
use private_poker.Entities.{Usd, PlayerState}
use private_poker.Entities.Player.{Player}
use private_poker.Entities.Pot
use private_poker.Entities.Pot.{invest, bet}
use private_poker.Game.{GameData}
use private_poker.Game.Queries.{get_num_users, reset_waiting}
use private_poker.Game.Blinds.{with_money, pay_blind, collect_blind, collect_blinds}
use private_poker.Game.Betting.{reset_others}
use private_poker.Game.Census.{census, money_weight, Weight, weigh_player}
use private_poker.Game.Money.{IsBalanced, cash, dues, invested}
use private_poker.Game.Money.Pots.{invested-invest}

-- The money moves among the users and the pot only.
pub record Carries (d d' : GameData) : Type 0 where
  pub same_cash : cash d' ≡ cash d
  pub same_dues : dues d' ≡ dues d
  pub same_donations : d'.donations ≡ d.donations

pub Carries-IsBalanced : (d d' : GameData) → Carries d d' → IsBalanced d → IsBalanced d'
Carries-IsBalanced d d' c balanced = omega (
  arith,
  c.same_cash,
  c.same_dues,
  balanced,
  ap pos_part c.same_donations,
  ap neg_part c.same_donations,
)

-- A player pays an amount of the stack into the pot.
pub pay-Carries :
    (i amount : ℕ) (p : Player) (s : PlayerState) (d d' : GameData)
    → get_elem? d.players i ≡ some p
    → amount ≤ p.user.money
    → cash d < u32_mod
    → d'.spectators ≡ d.spectators
    → d'.waitlist ≡ d.waitlist
    → d'.players ≡ set d.players i (with_money p s (sub_u32 p.user.money amount))
    → d'.pot.investments ≡ invest i amount d.pot.investments
    → d'.settings ≡ d.settings
    → d'.donations ≡ d.donations
    → Carries d d'
unfolding census get_num_users
pay-Carries i amount p s d d' e le small e1 e2 e3 e4 e5 e6 = record {
  same_cash =
      rw (e1, e2, e3, e4)
        (omega (
          arith,
          sum_by-set (weigh_player money_weight) d.players i p
              (with_money p s (sub_u32 p.user.money amount)) e,
          sum_by-get_elem? (weigh_player money_weight) d.players i p e,
          invested-invest i amount d.pot.investments,
        ));
  same_dues = rw (e1, e2, e3, e5, length-set d.players i _) refl;
  same_donations = e6;
}

pub trans-Carries : (d e f : GameData) → Carries d e → Carries e f → Carries d f
trans-Carries d e f c c' = record {
  same_cash = c'.same_cash ∙ c.same_cash;
  same_dues = c'.same_dues ∙ c.same_dues;
  same_donations = c'.same_donations ∙ c.same_donations;
}

collect_blind-Carries :
    (i : ℕ) (blind : Usd) (d d' : GameData)
    → collect_blind i blind d ≡ done d'
    → cash d < u32_mod
    → Carries d d'
unfolding collect_blind bet
collect_blind-Carries i blind d d' e small =
    let (p, found, e1) = >>=-eq-done (expect (get_elem? d.players i)) _ e in
    let (paid, pays, e2) =
      >>=-eq-done (pay_blind (compare p.user.money blind) d.num_players_active) _ e1 in
    let at : get_elem? d.players i ≡ some p = ground arith in
    pay-Carries i blind p paid.0 d d' at (ground arith) small (ground arith) (ground arith)
      (ground arith) (ground arith) (ground arith) (ground arith)

-- Collecting the blinds moves money only from the stacks to the pot: their sum, the number of
-- users times the buy-in, and the donations stay the same. The conditions: both blinds are paid,
-- the stacks and the pot together fit a u32, and the old pot is empty.
pub collect_blinds-Carries :
    (d d' : GameData)
    → collect_blinds d ≡ done d'
    → cash d < u32_mod
    → invested d.pot.investments ≡ 0
    → Carries d d'
unfolding collect_blinds census get_num_users
collect_blinds-Carries d d' e small empty =
    let (d1, e1, r1) =
      >>=-eq-done (collect_blind d.small_blind_idx d.small_blind (record d { pot = Pot.new })) _
        e in
    let (d2, e2, r2) = >>=-eq-done (collect_blind d1.big_blind_idx d1.big_blind d1) _ r1 in
    let paid_out : Carries d (record d { pot = Pot.new }) = record {
      same_cash = omega (arith, empty);
      same_dues = refl;
      same_donations = refl;
    } in
    let c1 =
      collect_blind-Carries d.small_blind_idx d.small_blind (record d { pot = Pot.new }) d1 e1
        (omega (arith, small, empty)) in
    let c2 =
      collect_blind-Carries d1.big_blind_idx d1.big_blind d1 d2 e2
        (omega (arith, c1.same_cash, small, empty)) in
    let last : Carries d2 d' =
      subst (Carries d2) (done-injective r2)
        (record { same_cash = refl; same_dues = refl; same_donations = refl }) in
    trans-Carries d (record d { pot = Pot.new }) d' paid_out
      (trans-Carries (record d { pot = Pot.new }) d1 d' c1 (trans-Carries d1 d2 d' c2 last))

pub sum_by-reset_waiting :
    (w : Weight) (ps : List Player)
    → sum_by (weigh_player w) (map reset_waiting ps) ≡ sum_by (weigh_player w) ps
sum_by-reset_waiting w [] = refl
sum_by-reset_waiting w (p ∷ ps) = omega (arith, sum_by-reset_waiting w ps)

pub sum_by-reset_others :
    (w : Weight) (i : ℕ) (ps : List Player)
    → sum_by (weigh_player w) (reset_others i ps) ≡ sum_by (weigh_player w) ps
unfolding reset_others
sum_by-reset_others w i [] = refl
sum_by-reset_others w zero (p ∷ ps) = omega (arith, sum_by-reset_waiting w ps)
sum_by-reset_others w (suc i) (p ∷ ps) = omega (arith, sum_by-reset_others w i ps)

pub length-reset_others : (i : ℕ) (ps : List Player) → length (reset_others i ps) ≡ length ps
unfolding reset_others
length-reset_others i [] = refl
length-reset_others zero (p ∷ ps) = ap suc (length-map ps reset_waiting)
length-reset_others (suc i) (p ∷ ps) = ap suc (length-reset_others i ps)

pub refl-Carries : (d : GameData) → Carries d d
refl-Carries d = record { same_cash = refl; same_dues = refl; same_donations = refl }
