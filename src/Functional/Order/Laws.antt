-- ===== src/Functional/Order/Laws.antt =====
-- The derived order of hands in private_poker/src/game/functional.rs is a total order.
use Prim.Native.Nat.{compare, Ordering}
use private_poker.Prelude.{
  some, get_elem?, ◌≡◌, refl, ◌∙◌, sym, ap, List, [], ◌∷◌, ◌⊎◌, inl, inr, arith,
}
use mathlib.Core.Option.{some-injective}
use private_poker.Entities.{Rank}
use private_poker.Functional.Order.{then_cmp, cmp_list, cmp_sub_hand, cmp_hand, rank_index}

pub record IsOrder {A : Type 0} (cmp : A → A → Ordering) : Type 0 where
  pub same : (a b : A) → cmp a b ≡ Ordering.eq → a ≡ b
  pub reflexive : (a : A) → cmp a a ≡ Ordering.eq
  pub flip : (a b : A) → cmp a b ≡ Ordering.lt → cmp b a ≡ Ordering.gt
  pub transitive :
      (a b c : A) → cmp a b ≡ Ordering.gt → cmp b c ≡ Ordering.gt → cmp a c ≡ Ordering.gt

compare-IsOrder : IsOrder compare
compare-IsOrder = record {
  same = λ a b e. ground (arith, e);
  reflexive = λ a. ground arith;
  flip = λ a b e. ground (arith, e);
  transitive = λ a b c e e'. ground (arith, e, e');
}

-- How a comparison by two keys can end.
then_eq : (x y : Ordering) → then_cmp x y ≡ Ordering.eq → (x ≡ Ordering.eq) × (y ≡ Ordering.eq)
then_eq Ordering.eq y e = (refl, e)
then_eq Ordering.lt y e = cc
then_eq Ordering.gt y e = cc

then_lt :
    (x y : Ordering)
    → then_cmp x y ≡ Ordering.lt
    → (x ≡ Ordering.lt) ⊎ ((x ≡ Ordering.eq) × (y ≡ Ordering.lt))
then_lt Ordering.lt y e = inl refl
then_lt Ordering.eq y e = inr (refl, e)
then_lt Ordering.gt y e = cc

then_gt :
    (x y : Ordering)
    → then_cmp x y ≡ Ordering.gt
    → (x ≡ Ordering.gt) ⊎ ((x ≡ Ordering.eq) × (y ≡ Ordering.gt))
then_gt Ordering.gt y e = inl refl
then_gt Ordering.eq y e = inr (refl, e)
then_gt Ordering.lt y e = cc

-- The steps of the laws for two keys, of which the first is an order.
module _ {A : Type 0} (cmp : A → A → Ordering) (o : IsOrder cmp) where
  flip_then :
      (a b : A) (x y : Ordering)
      → (x ≡ Ordering.lt → y ≡ Ordering.gt)
      → then_cmp (cmp a b) x ≡ Ordering.lt
      → then_cmp (cmp b a) y ≡ Ordering.gt
  flip_then a b x y later e = elim (then_lt (cmp a b) x e) [
    | inl first ↦ rw (o.flip a b first) refl
    | inr (tie, second) ↦
        let back : cmp b a ≡ Ordering.eq =
          ap (λ c. cmp c a) (sym (o.same a b tie)) ∙ o.reflexive a in
        rw (back, later second) refl
  ]

  transitive_then :
      (a b c : A) (x y z : Ordering)
      → (x ≡ Ordering.gt → y ≡ Ordering.gt → z ≡ Ordering.gt)
      → then_cmp (cmp a b) x ≡ Ordering.gt
      → then_cmp (cmp b c) y ≡ Ordering.gt
      → then_cmp (cmp a c) z ≡ Ordering.gt
  transitive_then a b c x y z later e e' = elim (then_gt (cmp a b) x e) [
    | inl first ↦ elim (then_gt (cmp b c) y e') [
      | inl first' ↦ rw (o.transitive a b c first first') refl
      | inr (tie', _) ↦ rw (ap (cmp a) (sym (o.same b c tie')) ∙ first) refl
    ]
    | inr (tie, second) ↦ elim (then_gt (cmp b c) y e') [
      | inl first' ↦ rw (ap (λ d. cmp d c) (o.same a b tie) ∙ first') refl
      | inr (tie', second') ↦
          rw (ap (λ d. cmp d c) (o.same a b tie) ∙ tie', later second second') refl
    ]
  ]

  same_list : (xs ys : List A) → cmp_list cmp xs ys ≡ Ordering.eq → xs ≡ ys
  unfolding cmp_list
  same_list [] [] e = refl
  same_list [] (y ∷ ys) e = cc
  same_list (x ∷ xs) [] e = cc
  same_list (x ∷ xs) (y ∷ ys) e =
      let (first, rest) = then_eq (cmp x y) (cmp_list cmp xs ys) e in
      ap (x ∷◌) (same_list xs ys rest) ∙ ap (λ h. h ∷ ys) (o.same x y first)

  reflexive_list : (xs : List A) → cmp_list cmp xs xs ≡ Ordering.eq
  unfolding cmp_list
  reflexive_list [] = refl
  reflexive_list (x ∷ xs) = rw (o.reflexive x) (reflexive_list xs)

  flip_list : (xs ys : List A) → cmp_list cmp xs ys ≡ Ordering.lt → cmp_list cmp ys xs ≡ Ordering.gt
  unfolding cmp_list
  flip_list [] [] e = cc
  flip_list [] (y ∷ ys) e = refl
  flip_list (x ∷ xs) [] e = cc
  flip_list (x ∷ xs) (y ∷ ys) e =
      flip_then x y (cmp_list cmp xs ys) (cmp_list cmp ys xs) (flip_list xs ys) e

  transitive_list :
      (xs ys zs : List A)
      → cmp_list cmp xs ys ≡ Ordering.gt
      → cmp_list cmp ys zs ≡ Ordering.gt
      → cmp_list cmp xs zs ≡ Ordering.gt
  unfolding cmp_list
  transitive_list [] [] zs e e' = cc
  transitive_list [] (y ∷ ys) zs e e' = cc
  transitive_list (x ∷ xs) [] [] e e' = refl
  transitive_list (x ∷ xs) [] (z ∷ zs) e e' = cc
  transitive_list (x ∷ xs) (y ∷ ys) [] e e' = refl
  transitive_list (x ∷ xs) (y ∷ ys) (z ∷ zs) e e' =
      transitive_then x y z (cmp_list cmp xs ys) (cmp_list cmp ys zs) (cmp_list cmp xs zs)
        (transitive_list xs ys zs) e e'

  list-IsOrder : IsOrder (cmp_list cmp)
  list-IsOrder = record {
    same = same_list;
    reflexive = reflexive_list;
    flip = flip_list;
    transitive = transitive_list;
  }

-- The ranks at their positions.
abbrev ranks : List Rank
ranks =
    Rank.high_card ∷ Rank.one_pair ∷ Rank.two_pair ∷ Rank.three_of_a_kind ∷ Rank.straight
    ∷ Rank.flush ∷ Rank.full_house ∷ Rank.four_of_a_kind ∷ Rank.straight_flush ∷ []

rank_at : (a : Rank) → get_elem? ranks (rank_index a) ≡ some a
rank_at Rank.high_card = refl
rank_at Rank.one_pair = refl
rank_at Rank.two_pair = refl
rank_at Rank.three_of_a_kind = refl
rank_at Rank.straight = refl
rank_at Rank.flush = refl
rank_at Rank.full_house = refl
rank_at Rank.four_of_a_kind = refl
rank_at Rank.straight_flush = refl

rank_index-injective : (a b : Rank) → rank_index a ≡ rank_index b → a ≡ b
rank_index-injective a b e =
    some-injective _ _ (sym (rank_at a) ∙ ap (get_elem? ranks) e ∙ rank_at b)

values-IsOrder : IsOrder (cmp_list compare)
values-IsOrder = list-IsOrder compare compare-IsOrder

cmp_sub_hand-IsOrder : IsOrder cmp_sub_hand
unfolding cmp_sub_hand
cmp_sub_hand-IsOrder = record {
  same = λ a b e.
      let (kinds, rest) = then_eq _ (cmp_list compare a.values b.values) e in
      let p = rank_index-injective a.rank b.rank (compare-IsOrder.same _ _ kinds) in
      let q = values-IsOrder.same a.values b.values rest in
      λ i. record { rank = p i; values = q i };
  reflexive =
      λ a. rw (compare-IsOrder.reflexive (rank_index a.rank)) (values-IsOrder.reflexive a.values);
  flip = λ a b.
      flip_then compare compare-IsOrder (rank_index a.rank) (rank_index b.rank)
        (cmp_list compare a.values b.values) (cmp_list compare b.values a.values)
        (values-IsOrder.flip a.values b.values);
  transitive = λ a b c.
      transitive_then compare compare-IsOrder (rank_index a.rank) (rank_index b.rank)
        (rank_index c.rank) (cmp_list compare a.values b.values)
        (cmp_list compare b.values c.values) (cmp_list compare a.values c.values)
        (values-IsOrder.transitive a.values b.values c.values);
}

pub cmp_hand-IsOrder : IsOrder cmp_hand
unfolding cmp_hand
cmp_hand-IsOrder = list-IsOrder cmp_sub_hand cmp_sub_hand-IsOrder
