-- ===== src/Functional/Argmax/Reference.antt =====
-- What `argmax` of private_poker/src/game/functional.rs finds, in two passes: the best hand, and where
-- it is.
use Prim.Native.Nat.{Ordering}
use private_poker.Prelude.{
  ℕ, zero, suc, get_elem?, some, subst, ◌+◌, ◌≡◌, ◌≢◌, ◌⊎◌, inl, inr, refl, ◌∙◌, sym, ap, Bool,
  true, false, List, [], ◌∷◌, ◌++◌, if◌then◌else◌,
}
use mathlib.Core.Option.{some-injective}
use private_poker.Entities.{SubHand}
use private_poker.Functional.Order.{cmp_hand}
use private_poker.Functional.Order.Laws.{cmp_hand-IsOrder}
use private_poker.Functional.Argmax.{floor_hand, argmax_from, argmax}

abbrev is_tie : Ordering → Bool
is_tie Ordering.eq = true
is_tie Ordering.lt = false
is_tie Ordering.gt = false

abbrev better : Ordering → List SubHand → List SubHand → List SubHand
better Ordering.gt hand best = hand
better Ordering.eq hand best = best
better Ordering.lt hand best = best

-- The best of some hands, and of one to start from.
unfoldable pub best_hand : List SubHand → List (List SubHand) → List SubHand
best_hand best [] = best
best_hand best (hand ∷ hands) = best_hand (better (cmp_hand hand best) hand best) hands

-- The indices, from one on, of the hands that are worth as much as a given one.
unfoldable pub indices_of : ℕ → List SubHand → List (List SubHand) → List ℕ
indices_of i best [] = []
indices_of i best (hand ∷ hands) =
    let rest = indices_of (i + 1) best hands in
    if is_tie (cmp_hand hand best) then i ∷ rest else rest

ordering_cases : (o : Ordering) → (o ≡ Ordering.eq) ⊎ ((o ≡ Ordering.gt) ⊎ (o ≡ Ordering.lt))
ordering_cases Ordering.eq = inl refl
ordering_cases Ordering.gt = inr (inl refl)
ordering_cases Ordering.lt = inr (inr refl)

append_assoc : (xs : List ℕ) (y : ℕ) (ys : List ℕ) → (xs ++ (y ∷ [])) ++ ys ≡ xs ++ (y ∷ ys)
append_assoc [] y ys = refl
append_assoc (x ∷ xs) y ys = ap (x ∷◌) (append_assoc xs y ys)

-- No hand beats the best one.
best_hand-start :
    (best : List SubHand) (hands : List (List SubHand))
    → cmp_hand best (best_hand best hands) ≢ Ordering.gt
unfolding best_hand
best_hand-start best [] e = cc (cmp_hand-IsOrder.reflexive best, e)
best_hand-start best (hand ∷ hands) e = elim (ordering_cases (cmp_hand hand best)) [
  | inl tie ↦ best_hand-start best hands (rw tie at e)
  | inr (inl wins) ↦
      best_hand-start hand hands
        (cmp_hand-IsOrder.transitive hand best (best_hand hand hands) wins (rw wins at e))
  | inr (inr loses) ↦ best_hand-start best hands (rw loses at e)
]

best_hand-beats :
    (best : List SubHand) (hands : List (List SubHand)) (j : ℕ) (hand : List SubHand)
    → get_elem? hands j ≡ some hand
    → cmp_hand hand (best_hand best hands) ≢ Ordering.gt
unfolding best_hand
best_hand-beats best [] j hand e beaten = cc
best_hand-beats best (x ∷ hands) (suc j) hand e beaten =
    best_hand-beats (better (cmp_hand x best) x best) hands j hand e beaten
best_hand-beats best (x ∷ hands) zero hand e beaten =
    let first : x ≡ hand = some-injective _ _ e in
    let beats =
      subst (λ h. cmp_hand h (best_hand (better (cmp_hand x best) x best) hands) ≡ Ordering.gt)
        (sym first) beaten in
    elim (ordering_cases (cmp_hand x best)) [
      | inl tie ↦
          let level = cmp_hand-IsOrder.same x best tie in
          best_hand-start best hands
            (ap (λ h. cmp_hand h (best_hand best hands)) (sym level) ∙ (rw tie at beats))
      | inr (inl wins) ↦ best_hand-start x hands (rw wins at beats)
      | inr (inr loses) ↦ best_hand-start best hands (
          cmp_hand-IsOrder.transitive best x (best_hand best hands)
            (cmp_hand-IsOrder.flip x best loses) (rw loses at beats))
    ]

-- What the loop has collected, if the best hand so far stays the best one.
abbrev kept : Ordering → List ℕ → List ℕ
kept o argmaxes = if is_tie o then argmaxes else []

append_nil : (xs : List ℕ) → xs ++ [] ≡ xs
append_nil [] = refl
append_nil (x ∷ xs) = ap (x ∷◌) (append_nil xs)

none_kept : (o : Ordering) (rest : List ℕ) → kept o [] ++ rest ≡ rest
none_kept Ordering.eq rest = refl
none_kept Ordering.lt rest = refl
none_kept Ordering.gt rest = refl

no_tie : (o : Ordering) → o ≢ Ordering.eq → is_tie o ≡ false
no_tie Ordering.eq h = absurd (h refl)
no_tie Ordering.lt h = refl
no_tie Ordering.gt h = refl

tie_step :
    (o : Ordering) (argmaxes rest : List ℕ) (i : ℕ)
    → kept o (argmaxes ++ (i ∷ [])) ++ rest
      ≡ kept o argmaxes ++ (if is_tie o then i ∷ rest else rest)
tie_step Ordering.eq argmaxes rest i = append_assoc argmaxes i rest
tie_step Ordering.lt argmaxes rest i = refl
tie_step Ordering.gt argmaxes rest i = refl

win_step :
    (o o' : Ordering) (argmaxes rest : List ℕ) (i : ℕ)
    → is_tie o ≡ false
    → kept o' (i ∷ []) ++ rest ≡ kept o argmaxes ++ (if is_tie o' then i ∷ rest else rest)
win_step Ordering.eq o' argmaxes rest i h = cc
win_step Ordering.lt Ordering.eq argmaxes rest i h = refl
win_step Ordering.lt Ordering.lt argmaxes rest i h = refl
win_step Ordering.lt Ordering.gt argmaxes rest i h = refl
win_step Ordering.gt Ordering.eq argmaxes rest i h = refl
win_step Ordering.gt Ordering.lt argmaxes rest i h = refl
win_step Ordering.gt Ordering.gt argmaxes rest i h = refl

-- One round of the loop, by the comparison.
unfoldable argmax_round :
    Ordering → ℕ → List SubHand → List SubHand → List ℕ → List (List SubHand) → List ℕ
argmax_round Ordering.eq i hand best argmaxes hands =
    argmax_from (i + 1) best (argmaxes ++ (i ∷ [])) hands
argmax_round Ordering.gt i hand best argmaxes hands = argmax_from (i + 1) hand (i ∷ []) hands
argmax_round Ordering.lt i hand best argmaxes hands = argmax_from (i + 1) best argmaxes hands

argmax_from-round :
    (o : Ordering) (i : ℕ) (hand best : List SubHand) (argmaxes : List ℕ)
    (hands : List (List SubHand))
    → cmp_hand hand best ≡ o
    → argmax_from i best argmaxes (hand ∷ hands) ≡ argmax_round o i hand best argmaxes hands
unfolding argmax_from argmax_round cmp_hand
argmax_from-round Ordering.eq i hand best argmaxes hands e = rw (argmax_from, e) refl
argmax_from-round Ordering.gt i hand best argmaxes hands e = rw (argmax_from, e) refl
argmax_from-round Ordering.lt i hand best argmaxes hands e = rw (argmax_from, e) refl

-- What the loop comes to, for a best hand.
abbrev found : ℕ → List SubHand → List ℕ → List (List SubHand) → List SubHand → List ℕ
found i best argmaxes hands top = kept (cmp_hand best top) argmaxes ++ indices_of i top hands

argmax_from-indices_of :
    (i : ℕ) (best : List SubHand) (argmaxes : List ℕ) (hands : List (List SubHand))
    → argmax_from i best argmaxes hands ≡ found i best argmaxes hands (best_hand best hands)
unfolding argmax_from best_hand indices_of argmax_round
argmax_from-indices_of i best argmaxes [] =
    sym (rw (cmp_hand-IsOrder.reflexive best) (append_nil argmaxes))
argmax_from-indices_of i best argmaxes (hand ∷ hands) =
    let T = found i best argmaxes (hand ∷ hands) in
    elim (ordering_cases (cmp_hand hand best)) [
      | inl tie ↦
          let top = best_hand best hands in
          let rest = indices_of (i + 1) top hands in
          argmax_from-round Ordering.eq i hand best argmaxes hands tie
          ∙ argmax_from-indices_of (i + 1) best (argmaxes ++ (i ∷ [])) hands
          ∙ tie_step (cmp_hand best top) argmaxes rest i
          ∙ ap
              (λ h.
                kept (cmp_hand best top) argmaxes
                ++ (if is_tie (cmp_hand h top) then i ∷ rest else rest))
              (sym (cmp_hand-IsOrder.same hand best tie))
          ∙ ap (λ o. T (best_hand (better o hand best) hands)) (sym tie)
      | inr (inl wins) ↦
          let top = best_hand hand hands in
          let passed : is_tie (cmp_hand best top) ≡ false = no_tie (cmp_hand best top) (λ tie.
            best_hand-start hand hands
              (ap (cmp_hand hand) (sym (cmp_hand-IsOrder.same best top tie)) ∙ wins)) in
          argmax_from-round Ordering.gt i hand best argmaxes hands wins
          ∙ argmax_from-indices_of (i + 1) hand (i ∷ []) hands
          ∙ win_step (cmp_hand best top) (cmp_hand hand top) argmaxes (indices_of (i + 1) top hands)
              i passed
          ∙ ap (λ o. T (best_hand (better o hand best) hands)) (sym wins)
      | inr (inr loses) ↦
          let top = best_hand best hands in
          let rest = indices_of (i + 1) top hands in
          let passed : is_tie (cmp_hand hand top) ≡ false = no_tie (cmp_hand hand top) (λ tie.
            best_hand-start best hands (
              ap (cmp_hand best) (sym (cmp_hand-IsOrder.same hand top tie))
              ∙ cmp_hand-IsOrder.flip hand best loses)) in
          argmax_from-round Ordering.lt i hand best argmaxes hands loses
          ∙ argmax_from-indices_of (i + 1) best argmaxes hands
          ∙ ap (λ b. kept (cmp_hand best top) argmaxes ++ (if b then i ∷ rest else rest))
              (sym passed)
          ∙ ap (λ o. T (best_hand (better o hand best) hands)) (sym loses)
    ]

-- `argmax`, which goes over the hands once, returns what two passes do: the best of the hands and
-- a high card of value 0 is chosen first, and then the indices of the hands that are worth as
-- much, in their order. No hand is worth more than the best one.
pub argmax-best :
    (hands : List (List SubHand))
    → (argmax hands ≡ indices_of 0 (best_hand floor_hand hands) hands)
      × ((j : ℕ) (hand : List SubHand)
          → get_elem? hands j ≡ some hand
          → cmp_hand hand (best_hand floor_hand hands) ≢ Ordering.gt)
unfolding argmax
argmax-best hands = (
  argmax_from-indices_of 0 floor_hand [] hands
      ∙ none_kept (cmp_hand floor_hand (best_hand floor_hand hands)) _,
  best_hand-beats floor_hand hands,
)
