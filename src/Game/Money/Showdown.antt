-- ===== src/Game/Money/Showdown.antt =====
-- The distribution of a pot moves its money to the winners and the remainder to the donations.
use mathlib.Core.List.{reverse}
use private_poker.Prelude.{
  ℕ, zero, suc, ◌+◌, ◌-◌, ◌*◌, ◌≡◌, ◌≤◌, ◌<◌, ◌∙◌, List, [], ◌∷◌, ◌++◌, arith, sum_by, sum_by-set,
  sum_by-get_elem?, some, sum_by-append, length, length-set, get_elem?, set, u32_mod, done, expect,
  >>=-eq-done, done-injective, subst,
}
use private_poker.Entities.{Usd}
use private_poker.Entities.Player.{Player}
use private_poker.Entities.Pot.{Investments}
use private_poker.Entities.Usdf.{Usdf, significand, usdf_of, ◌+f◌, ◌-f◌}
use private_poker.Functional.Argmax.{argmax}
use private_poker.Game.{GameData}
use private_poker.Game.Queries.{get_num_users}
use private_poker.Game.Showdown.{
  HandEvalCache, PotSplit, Gathered, split_pot, gather, win, pay_winners, checked_div,
  distribute_sorted, distribute, sort_investments, remove_null,
}
use private_poker.Game.Census.{census, money_weight, weigh_player}
use private_poker.Game.Money.{IsBalanced, IsSmall, cash, dues, invested}
use private_poker.Game.Money.Donations.{Fills, +f-Fills, -f-Fills, usdf_of-Fills}
use private_poker.Game.Money.Pots.{
  invested-sort_investments, invested-remove_null, invested-reverse, invested-split_pot,
  invested-gather,
}

abbrev chips : List Player → ℕ
chips ps = sum_by (weigh_player money_weight) ps

-- Each winner gets the split, and the remainder loses it.
pay_winners-pays :
    (split : Usd) (seats winners : List ℕ) (ps : List Player) (rest : Usdf) (b : ℕ)
    (r : List Player × Usdf)
    → pay_winners split seats winners ps rest ≡ done r
    → Fills rest 0 (b + length winners * split)
    → b + length winners * split ≤ significand
    → chips ps + length winners * split < u32_mod
    → (chips r.0 ≡ chips ps + length winners * split) × (length r.0 ≡ length ps) × Fills r.1 0 b
unfolding pay_winners
pay_winners-pays split seats [] ps rest b r e fills small small' =
    (ground arith, ground arith, ground arith)
pay_winners-pays split seats (w ∷ winners) ps rest b r e fills small small' =
    let (i, e1, r1) = >>=-eq-done (expect (get_elem? seats w)) _ e in
    let (p, e2, r2) = >>=-eq-done (expect (get_elem? ps i)) _ r1 in
    let at : get_elem? ps i ≡ some p = ground arith in
    let paid = sum_by-set (weigh_player money_weight) ps i p (win split p) at in
    let part = sum_by-get_elem? (weigh_player money_weight) ps i p at in
    let more : chips (set ps i (win split p)) ≡ chips ps + split =
      omega (arith, paid, part, small') in
    let (gained, kept, left) =
      pay_winners-pays split seats winners (set ps i (win split p)) (rest -f usdf_of split) b r r2
        (-f-Fills rest (usdf_of split) 0 (b + suc (length winners) * split) 0 split 0
          (b + length winners * split) fills (usdf_of-Fills split (omega (arith, small)))
          (omega arith) (omega arith) (omega (arith, small)))
        (omega (arith, small)) (omega (arith, more, small')) in
    (omega (arith, gained, more), kept ∙ length-set ps i (win split p), left)

pub checked_div_bounds : (a n q : ℕ) → checked_div a n ≡ done q → n * q ≤ a
checked_div_bounds a zero q e = cc
checked_div_bounds a (suc n) q e = rw (← done-injective e) (grind arith)

-- What the pot gathers at first.
abbrev empty_pot : HandEvalCache → Gathered
empty_pot cache = record {
  pot_size = 0;
  seats_in_pot = [];
  hands_in_pot = [];
  cache = cache;
  remaining = [];
}

-- The data after a pot is paid out.
abbrev paid_out : GameData → PotSplit → Gathered → List Player × Usdf → GameData
paid_out d s g r = record d {
  players = r.0;
  donations = d.donations +f r.1;
  pot = record { investments = s.outside ++ g.remaining };
}

paid_out-IsBalanced :
    (d : GameData) (s : PotSplit) (g : Gathered) (r : List Player × Usdf) (won b : ℕ)
    → IsSmall d
    → IsBalanced d
    → g.pot_size + invested g.remaining + invested s.outside ≡ invested d.pot.investments
    → g.pot_size ≡ b + won
    → chips r.0 ≡ chips d.players + won
    → length r.0 ≡ length d.players
    → Fills r.1 0 b
    → IsBalanced (paid_out d s g r)
unfolding census get_num_users
paid_out-IsBalanced d s g r won b small balanced kept size gained same_length left =
    rw same_length (
      +f-Fills d.donations r.1 (cash d) (dues d) 0 b _ (dues d) balanced left (omega (arith, total))
        (omega (arith, total, small.cash_small)) small.dues_small)
  where
    total :
        invested (s.outside ++ g.remaining) + chips r.0 + b
        ≡ invested d.pot.investments + chips d.players
    total =
        omega (arith, sum_by-append (λ (x : ℕ × ℕ). x.1) s.outside g.remaining, kept, size, gained)

chips_bound :
    (d : GameData) (pot_size rest won : ℕ)
    → IsSmall d
    → pot_size + rest ≡ invested d.pot.investments
    → won ≤ pot_size
    → chips d.players + won < u32_mod
unfolding census
chips_bound d pot_size rest won small kept within = omega (arith, small.cash_small, kept, within)

distribute_sorted-IsBalanced :
    (m : Investments) (d : GameData) (cache : HandEvalCache) (r : GameData × HandEvalCache)
    → distribute_sorted m d cache ≡ done r
    → invested m ≡ invested d.pot.investments
    → IsSmall d
    → IsBalanced d
    → IsBalanced r.0
unfolding distribute_sorted
distribute_sorted-IsBalanced [] d cache r e same small balanced =
    subst (λ x. IsBalanced x.0) (done-injective e) balanced
distribute_sorted-IsBalanced (x ∷ m) d cache r e same small balanced =
    let (s, e1, r1) = >>=-eq-done (split_pot x.1 d.players (x ∷ m)) _ e in
    let (g, e2, r2) =
      >>=-eq-done (gather s.pot_call d.players d.board (reverse s.inside) (empty_pot cache)) _ r1 in
    let winners = argmax g.hands_in_pot in
    let (split, e3, r3) = >>=-eq-done (checked_div g.pot_size (length winners)) _ r2 in
    let (paid, e4, r4) =
      >>=-eq-done (pay_winners split g.seats_in_pot winners d.players (usdf_of g.pot_size)) _ r3 in
    let both = invested-split_pot x.1 d.players (x ∷ m) s e1 in
    let turned = invested-reverse s.inside in
    let gathered =
      invested-gather s.pot_call d.players d.board (reverse s.inside) (empty_pot cache) g e2
        (omega (arith, both, turned, same, small.cash_small)) in
    let within = checked_div_bounds g.pot_size (length winners) split e3 in
    let won = length winners * split in
    let kept : g.pot_size + invested g.remaining + invested s.outside ≡ invested d.pot.investments =
      omega (arith, gathered, both, turned, same) in
    let size : g.pot_size ≡ g.pot_size - won + won = omega (arith, within) in
    let bound : g.pot_size ≤ significand = omega (arith, kept, small.cash_small) in
    let (gained, same_length, left) =
      pay_winners-pays split g.seats_in_pot winners d.players (usdf_of g.pot_size)
        (g.pot_size - won) paid e4 (rw (← size) (usdf_of-Fills g.pot_size bound))
        (omega (arith, within, bound))
        (chips_bound d g.pot_size (invested g.remaining + invested s.outside) won small
          (omega (arith, kept)) within) in
    subst (λ y. IsBalanced y.0) (done-injective r4)
      (paid_out-IsBalanced d s g paid won (g.pot_size - won) small balanced kept size gained
        same_length left)

remove_null-IsBalanced : (d : GameData) → IsBalanced d → IsBalanced (remove_null d)
unfolding census get_num_users
remove_null-IsBalanced d balanced = omega (arith, balanced, invested-remove_null d.pot.investments)

-- A distribution of a pot that ends keeps the money balanced, whoever wins: what the winners do
-- not get stays in the pot or goes to the donations. The condition: the money and the buy-ins
-- present are amounts for which an f32 is exact.
pub distribute-IsBalanced :
    (d : GameData) (cache : HandEvalCache) (r : GameData × HandEvalCache)
    → distribute d cache ≡ done r
    → IsSmall d
    → IsBalanced d
    → IsBalanced r.0
unfolding distribute
distribute-IsBalanced d cache r e small balanced =
    let (r', e1, r1) =
      >>=-eq-done (distribute_sorted (sort_investments d.pot.investments) d cache) _ e in
    subst (λ y. IsBalanced y.0) (done-injective r1)
      (remove_null-IsBalanced r'.0 (
        distribute_sorted-IsBalanced (sort_investments d.pot.investments) d cache r' e1
          (invested-sort_investments d.pot.investments) small balanced))
