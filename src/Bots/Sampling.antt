-- ===== src/Bots/Sampling.antt =====
-- A bot of pp_bots/src/bot.rs chooses an action that it may take.
use private_poker.Prelude.{
  ℕ, zero, suc, ◌≡◌, ◌≢◌, ◌↔◌, ◌⊎◌, refl, ◌∙◌, ap, sym, subst, Bool, true, Bool-cases, Option-cases,
  inl, inr, List, [], ◌∷◌, Option, none, some, expect, done-injective, get_elem?, length, Outcome,
  done, panic, >>=-eq-done, arith,
}
use mathlib.Core.Option.{some-injective}
use private_poker.Entities.{Action, action_eq}
use private_poker.Bots.{
  Floats, QLearning, Table, Weighted, enumerate, actions_array, get_mask, has_mask, weights_of,
  write_back, masked, new, sample, q_s_default,
}
use private_poker.Bots.Weights.{weights_of-write_back}

get_mask-has_mask :
    (a : Action) (masks : List Action)
    → has_mask a masks ≡ true
    → (m : Action) × (get_mask a masks ≡ some m) × (i : ℕ) × (get_elem? masks i ≡ some m)
unfolding get_mask
get_mask-has_mask a [] h = cc
get_mask-has_mask a (x ∷ xs) h = elim (Bool-cases (action_eq a x)) [
  | inl found ↦ (x, rw found refl, 0, refl)
  | inr later ↦
      let (m, found, i, there) = get_mask-has_mask a xs (rw later at h) in
      (m, rw later found, suc i, there)
]

module _ {K F : Type 0} (floats : Floats F) (same : K → K → Bool) where
  -- An index whose masked weight is not zero is that of an action that is allowed.
  masked-allowed :
      (masks acts : List Action) (ws : List F) (i : ℕ) (w : F)
      → get_elem? (masked floats same masks acts ws) i ≡ some w
      → w ≢ floats.zero
      → (a : Action) × (get_elem? acts i ≡ some a) × (has_mask a masks ≡ true)
  unfolding masked
  masked-allowed masks [] ws i w e h = cc
  masked-allowed masks (a ∷ acts) [] i w e h = cc
  masked-allowed masks (a ∷ acts) (x ∷ ws) zero w e h = elim (Bool-cases (has_mask a masks)) [
    | inl may ↦ (a, refl, may)
    | inr not_may ↦ absurd (h (sym (some-injective _ _ (rw not_may at e))))
  ]
  masked-allowed masks (a ∷ acts) (x ∷ ws) (suc i) w e h = masked-allowed masks acts ws i w e h

  length-masked :
      (masks acts : List Action) (ws : List F)
      → length acts ≡ length ws
      → length (masked floats same masks acts ws) ≡ length ws
  unfolding masked
  length-masked masks [] [] e = refl
  length-masked masks [] (w ∷ ws) e = e
  length-masked masks (a ∷ acts) [] e = refl
  length-masked masks (a ∷ acts) (w ∷ ws) e =
      ap suc (length-masked masks acts ws (omega (arith, e)))

-- What the crate rand documents of `WeightedIndex`, for a family of properties that hold of the
-- distributions over so many weights: a new one is over its weights, and after an update of each of
-- the weights that is not refused an index is drawn whose weight is not zero.
pub record IsWeighted {F D R : Type 0} (zero : F) (weighted : Weighted F D R)
    (Over : ℕ → D → Type 0) : Type 0 where
  pub over_new : (ws : List F) (d : D) → weighted.new ws ≡ some d → Over (length ws) d
  pub over_update :
      (ws : List F) (d d' : D)
      → Over (length ws) d
      → weighted.update_weights (enumerate 0 ws) d ≡ some d'
      → Over (length ws) d'
  pub draw_positive :
      (ws : List F) (d d' : D) (random : R)
      → Over (length ws) d
      → weighted.update_weights (enumerate 0 ws) d ≡ some d'
      → (v : F) × (get_elem? ws (weighted.draw d' random) ≡ some v) × (v ≢ zero)

expect-done {ℓ} : {A : Type ℓ} (o : Option A) {x : A} → expect o ≡ done x → o ≡ some x
expect-done none e = cc
expect-done (some y) e = ap some (done-injective e)

module _ {K F D R : Type 0} (floats : Floats F) (same : K → K → Bool)
    (same_iff : (a b : K) → (same a b ≡ true) ↔ (a ≡ b)) (weighted : Weighted F D R)
    (Over : ℕ → D → Type 0) (laws : IsWeighted floats.zero weighted Over) where
  -- A new bot has a distribution over five weights.
  pub new-Over :
      (alpha gamma : F) (q : QLearning K F D)
      → new floats same weighted alpha gamma ≡ done q
      → Over 5 q.dist
  unfolding new
  new-Over alpha gamma q e =
      let (d, fresh, ends) = >>=-eq-done (expect (weighted.new (q_s_default floats same))) _ e in
      subst (λ x. Over 5 x.dist) (done-injective ends)
        (laws.over_new (q_s_default floats same) d (expect-done _ fresh))

  -- How sampling ends: the new weights are refused, which panics, or an action that is allowed is
  -- chosen, the distribution has the new weights, and no state's weights change.
  abbrev pub Samples :
      K → List Action → QLearning K F D → Outcome (QLearning K F D × Action) → Type 0
  Samples state masks q o =
      let new_weights =
        enumerate 0
          (masked floats same masks actions_array (weights_of floats same state q.table)) in
      ((weighted.update_weights new_weights q.dist ≡ none) × (o ≡ panic))
      ⊎ ((q' : QLearning K F D) × (a : Action) × (o ≡ done (q', a))
          × (weighted.update_weights new_weights q.dist ≡ some q'.dist)
          × Over 5 q'.dist
          × ((other : K)
              → weights_of floats same other q'.table ≡ weights_of floats same other q.table)
          × (i : ℕ) × (get_elem? masks i ≡ some a))

  write_back-weights_of :
      (state other : K) (m : Table K F)
      → weights_of floats same other
          (write_back floats same state (weights_of floats same state m) m)
        ≡ weights_of floats same other m
  write_back-weights_of state other m = elim (Bool-cases (same other state)) [
    | inl this ↦
        weights_of-write_back floats same same_iff state other _ m
        ∙ rw this refl
        ∙ ap (λ k. weights_of floats same k m) (sym ((same_iff other state).0 this))
    | inr another ↦ weights_of-write_back floats same same_iff state other _ m ∙ rw another refl
  ]

  -- Sampling panics only where the distribution refuses the new weights, the exponentials of those
  -- of the state and zero for an action that is not allowed. Otherwise it chooses an action that
  -- the bot may take, none of its other operations fails, the distribution has taken the new
  -- weights and is over five again, and no state's weights change. The conditions: the
  -- distribution is over five weights, as a new bot's is, and draws as it is documented, the state
  -- has five weights, and the equality of states holds just for equal ones.
  pub sample-Samples :
      (random : R) (state : K) (masks : List Action) (q : QLearning K F D)
      → Over 5 q.dist
      → length (weights_of floats same state q.table) ≡ 5
      → Samples state masks q (sample floats same weighted random state masks q)
  unfolding sample
  sample-Samples random state masks q over five =
      let ws = weights_of floats same state q.table in
      let new_ws = masked floats same masks actions_array ws in
      let size : length new_ws ≡ 5 =
        length-masked floats same masks actions_array ws (sym five) ∙ five in
      let over' = subst (λ n. Over n q.dist) (sym size) over in
      elim (Option-cases (weighted.update_weights (enumerate 0 new_ws) q.dist)) [
        | inl refused ↦ inl (refused, rw refused refl)
        | inr (d, taken) ↦
            let (v, found, positive) = laws.draw_positive new_ws q.dist d random over' taken in
            let (a, there, allowed) =
              masked-allowed floats same masks actions_array ws (weighted.draw d random) v found
                positive in
            let (o, got, i, inside) = get_mask-has_mask a masks allowed in
            inr (
              record q { dist = d; table = write_back floats same state ws q.table },
              o,
              rw (taken, there, got) refl,
              taken,
              subst (λ n. Over n d) size (laws.over_update new_ws q.dist d over' taken),
              λ other. write_back-weights_of state other q.table,
              i,
              inside,
            )
      ]
