-- ===== src/Tests/Bots.antt =====
-- A bot of pp_bots/src/bot.rs with whole numbers for its weights.
use mathlib.Core.Option.{some-injective}
use private_poker.Prelude.{
  ℕ, zero, suc, ◌+◌, ◌-◌, ◌*◌, ◌≡◌, ◌≢◌, refl, sym, ap, subst, Bool, true, Bool-cases, inl, inr,
  List, [], ◌∷◌, Option, none, some, ltb, ◌==◌, ==_iff, if◌then◌else◌, any, get_elem?, length, set,
}
use private_poker.Entities.{check, fold, discriminant}
use private_poker.Bots.{
  Floats, QLearning, Weighted, enumerate, q_s_default, sample, update_done, weights_of,
}
use private_poker.Bots.Sampling.{IsWeighted, Samples, sample-Samples}
use private_poker.Bots.Weights.{update_done-weights}

abbrev numbers : Floats ℕ
numbers = record {
  zero = 0;
  fifth = 1;
  one = 5;
  add = λ a b. a + b;
  sub = λ a b. a - b;
  mul = λ a b. a * b;
  exp = λ a. suc a;
  less = λ a b. some (ltb a b);
}

abbrev same_number : ℕ → ℕ → Bool
same_number a b = a == b

-- A distribution is its weights, one of which is not zero, and draws the first that is not zero.
abbrev second_parts : List (ℕ × ℕ) → List ℕ
second_parts [] = []
second_parts (e ∷ es) = e.1 ∷ second_parts es

abbrev first_weight : List ℕ → ℕ
first_weight [] = 0
first_weight (zero ∷ ws) = suc (first_weight ws)
first_weight (suc n ∷ ws) = 0

abbrev checked : List ℕ → Option (List ℕ)
checked ws = if any (λ w. ltb 0 w) ws then some ws else none

abbrev firsts : Weighted ℕ (List ℕ) ℕ
firsts = record {
  new = checked;
  update_weights = λ new_weights d. checked (second_parts new_weights);
  draw = λ d random. first_weight d;
}

second_parts-enumerate : (i : ℕ) (ws : List ℕ) → second_parts (enumerate i ws) ≡ ws
unfolding enumerate
second_parts-enumerate i [] = refl
second_parts-enumerate i (w ∷ ws) = ap (λ us. w ∷ us) (second_parts-enumerate (suc i) ws)

first_weight-positive :
    (ws : List ℕ)
    → any (λ w. ltb 0 w) ws ≡ true
    → (v : ℕ) × (get_elem? ws (first_weight ws) ≡ some v) × (v ≢ 0)
first_weight-positive [] h = cc
first_weight-positive (zero ∷ ws) h = first_weight-positive ws h
first_weight-positive (suc n ∷ ws) h = (suc n, refl, λ z. cc)

checked-some : (ws d : List ℕ) → checked ws ≡ some d → (d ≡ ws) × (any (λ w. ltb 0 w) ws ≡ true)
checked-some ws d e = elim (Bool-cases (any (λ w. ltb 0 w) ws)) [
  | inl positive ↦ (sym (some-injective _ _ (rw positive at e)), positive)
  | inr zeros ↦ cc (rw zeros at e)
]

updated :
    (ws d : List ℕ)
    → checked (second_parts (enumerate 0 ws)) ≡ some d
    → (d ≡ ws) × (any (λ w. ltb 0 w) ws ≡ true)
updated ws d e = checked-some ws d (subst (λ x. checked x ≡ some d) (second_parts-enumerate 0 ws) e)

firsts-IsWeighted : IsWeighted 0 firsts (λ n d. length d ≡ n)
firsts-IsWeighted = record {
  over_new = λ ws d e. ap length (checked-some ws d e).0;
  over_update = λ ws d d' over e. ap length (updated ws d' e).0;
  draw_positive = λ ws d d' random over e.
      let (same, positive) = updated ws d' e in
      subst (λ x. (v : ℕ) × (get_elem? ws (first_weight x) ≡ some v) × (v ≢ 0)) (sym same)
        (first_weight-positive ws positive);
}

abbrev bot : QLearning ℕ ℕ (List ℕ)
bot = record { alpha = 1; gamma = 1; dist = q_s_default numbers same_number; table = [] }

sample-Samples_example :
    Samples numbers same_number
      (λ a b. ==_iff a b)
      firsts
      (λ n d. length d ≡ n)
      firsts-IsWeighted
      3
      (check ∷ fold ∷ [])
      bot
      (sample numbers same_number firsts 8 3 (check ∷ fold ∷ []) bot)
unfolding weights_of
sample-Samples_example =
    sample-Samples numbers same_number (λ a b. ==_iff a b) firsts (λ n d. length d ≡ n)
      firsts-IsWeighted 8 3 (check ∷ fold ∷ []) bot refl refl

update_done-weights_example :
    weights_of numbers same_number 3 (update_done numbers same_number 3 fold 7 bot).table ≡ (
      if same_number 3 3
      then set (weights_of numbers same_number 3 bot.table) (discriminant fold) 7
      else weights_of numbers same_number 3 bot.table)
update_done-weights_example =
    update_done-weights numbers same_number (λ a b. ==_iff a b) 3 3 fold 7 bot
