-- ===== src/Game/Money/Pots.antt =====
-- The money in a pot under the operations on its investments.
use mathlib.Core.List.{reverse, reverse-cons}
use private_poker.Prelude.{
  ℕ, ◌+◌, ◌≡◌, ◌<◌, refl, ap, List, [], ◌∷◌, ◌++◌, arith, min, sum_by-append, keep_if, ltb, u32_mod,
  inl, inr, done, expect, Outcome-cases, >>=-eq-done, add_u32, sub_u32, get_elem?,
}
use private_poker.Entities.{Usd, Card}
use private_poker.Entities.Player.{Player}
use private_poker.Entities.Pot.{Investments, invest, sum_investments}
use private_poker.Game.Showdown.{
  insert_investment, sort_investments, split_pot, PotSplit, gather, Gathered, enter_pot,
  evaluate_hand,
}
use private_poker.Game.Money.{invested}

-- A bet adds its amount, as long as the pot fits a `u32`.
pub invested-invest :
    (i amount : ℕ) (m : Investments)
    → invested m + amount < u32_mod
    → invested (invest i amount m) ≡ invested m + amount
unfolding invest
invested-invest i amount [] h = omega arith
invested-invest i amount (e ∷ m) h = ground (arith, invested-invest i amount m)

-- The size that is shown is the sum of the investments.
pub sum_investments-invested :
    (m : Investments) → invested m < u32_mod → sum_investments m ≡ invested m
unfolding sum_investments
sum_investments-invested [] h = refl
sum_investments-invested (e ∷ m) h = omega (arith, sum_investments-invested m (omega arith))

invested-insert_investment :
    (e : ℕ × ℕ) (m : Investments) → invested (insert_investment e m) ≡ e.1 + invested m
unfolding insert_investment
invested-insert_investment e [] = refl
invested-insert_investment e (x ∷ m) = ground (arith, invested-insert_investment e m)

pub invested-sort_investments : (m : Investments) → invested (sort_investments m) ≡ invested m
unfolding sort_investments
invested-sort_investments [] = refl
invested-sort_investments (e ∷ m) =
    omega (arith, invested-insert_investment e (sort_investments m), invested-sort_investments m)

pub invested-remove_null : (m : Investments) → invested (keep_if (λ e. ltb 0 e.1) m) ≡ invested m
invested-remove_null [] = refl
invested-remove_null (e ∷ m) = ground (arith, invested-remove_null m)

pub invested-reverse : (m : Investments) → invested (reverse m) ≡ invested m
invested-reverse [] = refl
invested-reverse (e ∷ m) = omega (
  arith,
  ap invested (reverse-cons e m),
  sum_by-append (λ (x : ℕ × ℕ). x.1) (reverse m) (e ∷ []),
  invested-reverse m,
)

-- The pot and what is left out of it are all investments.
pub invested-split_pot :
    (largest_call : Usd) (ps : List Player) (m : Investments) (s : PotSplit)
    → split_pot largest_call ps m ≡ done s
    → invested s.inside + invested s.outside ≡ invested m
unfolding split_pot
invested-split_pot largest_call ps [] s e = ground arith
invested-split_pot largest_call ps (x ∷ m) s e =
    elim (Outcome-cases (split_pot largest_call ps m)) [
      | inl stopped ↦ ground arith
      | inr (s', e') ↦ ground (arith, invested-split_pot largest_call ps m s' e')
    ]

-- The gathered investments go to the pot's size or remain.
enter_pot-keeps :
    (i : ℕ) (p : Player) (board : List Card) (g g' : Gathered)
    → enter_pot i p board g ≡ done g'
    → (g'.pot_size ≡ g.pot_size) × (g'.remaining ≡ g.remaining)
enter_pot-keeps i p board g g' e = elim (Outcome-cases (evaluate_hand i p board g.cache)) [
  | inl stopped ↦ ground arith
  | inr (r, e') ↦ ground arith
]

-- One round of the loop.
abbrev gathered_one : Usd → ℕ × ℕ → Gathered → Gathered
gathered_one pot_call x g = record g {
  pot_size = add_u32 g.pot_size (min pot_call x.1);
  remaining = g.remaining ++ (x.0, sub_u32 x.1 (min pot_call x.1)) ∷ [];
}

pub invested-gather :
    (pot_call : Usd) (ps : List Player) (board : List Card) (m : Investments) (g g' : Gathered)
    → gather pot_call ps board m g ≡ done g'
    → g.pot_size + invested m < u32_mod
    → g'.pot_size + invested g'.remaining ≡ g.pot_size + invested g.remaining + invested m
unfolding gather
invested-gather pot_call ps board [] g g' e h = ground arith
invested-gather pot_call ps board ((i, x) ∷ m) g g' e h =
    let (p, found, e1) = >>=-eq-done (expect (get_elem? ps i)) _ e in
    let (g1, entered, e2) =
      >>=-eq-done (enter_pot i p board (gathered_one pot_call (i, x) g)) _ e1 in
    let (same_size, same_rest) =
      enter_pot-keeps i p board (gathered_one pot_call (i, x) g) g1 entered in
    let ih = invested-gather pot_call ps board m g1 g' e2 (omega (arith, same_size)) in
    omega (
      arith,
      ih,
      same_size,
      ap invested same_rest,
      sum_by-append (λ (y : ℕ × ℕ). y.1) g.remaining ((i, sub_u32 x (min pot_call x)) ∷ []),
    )
