-- ===== src/Functional/Order.antt =====
-- The orders that private_poker/src/game/entities.rs derives: lexicographic in the order of the
-- fields, an enum by the position of its variants.
pub mod Laws
use Prim.Native.Nat.{Ordering, compare}
use private_poker.Prelude.{ℕ, List, [], ◌∷◌, Bool, true, false}
use private_poker.Entities.{Suit, Card, Rank, SubHand}

abbrev pub suit_index : Suit → ℕ
suit_index Suit.club = 0
suit_index Suit.spade = 1
suit_index Suit.diamond = 2
suit_index Suit.heart = 3
suit_index Suit.wild = 4

abbrev pub rank_index : Rank → ℕ
rank_index Rank.high_card = 0
rank_index Rank.one_pair = 1
rank_index Rank.two_pair = 2
rank_index Rank.three_of_a_kind = 3
rank_index Rank.straight = 4
rank_index Rank.flush = 5
rank_index Rank.full_house = 6
rank_index Rank.four_of_a_kind = 7
rank_index Rank.straight_flush = 8

-- The first difference decides.
abbrev pub then_cmp : Ordering → Ordering → Ordering
then_cmp Ordering.eq o = o
then_cmp Ordering.lt o = Ordering.lt
then_cmp Ordering.gt o = Ordering.gt

unfoldable pub cmp_card : Card → Card → Ordering
cmp_card a b = then_cmp (compare a.value b.value) (compare (suit_index a.suit) (suit_index b.suit))

-- `Vec<T>` is ordered lexicographically, a prefix first.
unfoldable pub cmp_list {ℓ} : {A : Type ℓ} → (A → A → Ordering) → List A → List A → Ordering
cmp_list cmp [] [] = Ordering.eq
cmp_list cmp [] (y ∷ ys) = Ordering.lt
cmp_list cmp (x ∷ xs) [] = Ordering.gt
cmp_list cmp (x ∷ xs) (y ∷ ys) = then_cmp (cmp x y) (cmp_list cmp xs ys)

unfoldable pub cmp_sub_hand : SubHand → SubHand → Ordering
unfolding cmp_list
cmp_sub_hand a b =
    then_cmp (compare (rank_index a.rank) (rank_index b.rank)) (cmp_list compare a.values b.values)

unfoldable pub cmp_hand : List SubHand → List SubHand → Ordering
unfolding cmp_list cmp_sub_hand
cmp_hand = cmp_list cmp_sub_hand

abbrev pub is_lt : Ordering → Bool
is_lt Ordering.lt = true
is_lt _ = false

abbrev pub is_gt : Ordering → Bool
is_gt Ordering.gt = true
is_gt _ = false
