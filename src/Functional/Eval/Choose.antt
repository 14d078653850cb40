-- ===== src/Functional/Eval/Choose.antt =====
-- The second part of `eval`: the groups move into the heap by rank, and the best five cards leave it.
use private_poker.Prelude.{
  ℕ, ◌+◌, ◌==◌, List, [], ◌∷◌, ◌++◌, Bool, true, false, not, ◌&&◌, ◌||◌, none, some, leb, any,
  if◌then◌else◌, length, Outcome, done, ◌>>=◌, expect, get_elem?,
}
use mathlib.Core.List.{reverse}
use private_poker.Entities.{Rank, SubHand, Value}
use private_poker.Functional.Order.{rank_index}
use private_poker.Functional.Eval.Grouping.{Groups, push_heap, nth_back}

-- `pop_last` on the map takes the ranks from the highest down.
abbrev pub ranks_descending : List Rank
ranks_descending =
    Rank.straight_flush ∷ Rank.four_of_a_kind ∷ Rank.full_house ∷ Rank.flush ∷ Rank.straight
    ∷ Rank.three_of_a_kind ∷ Rank.two_pair ∷ Rank.one_pair ∷ Rank.high_card ∷ []

abbrev pub is_rank : Rank → Rank → Bool
is_rank r s = rank_index r == rank_index s

-- `best_subhand.rank >= Rank::Straight`, for the first of a list.
abbrev pub is_straight_or_better : List SubHand → Bool
is_straight_or_better [] = false
is_straight_or_better (h ∷ _) = leb (rank_index Rank.straight) (rank_index h.rank)

unfoldable pub push_all : List SubHand → List SubHand → List SubHand
unfolding push_heap
push_all [] hands = hands
push_all (h ∷ hs) hands = push_all hs (push_heap h hands)

-- All high cards, or the best group of another rank.
abbrev pub push_rank : Rank → List SubHand → List SubHand → List SubHand
push_rank r subhands hands =
    if is_rank r Rank.high_card
    then push_all (reverse subhands) hands
    else elim (nth_back subhands 0) [ none ↦ hands | some best ↦ push_heap best hands ]

unfoldable pub merge_ranks : List Rank → Groups → List SubHand → List SubHand
unfolding push_all push_heap
merge_ranks [] g hands = hands
merge_ranks (r ∷ rs) g hands =
    let skipped = merge_ranks rs g hands in
    elim (g.subhands_per_rank r) [
      | none ↦ skipped
      | some subhands ↦
          let merged = merge_ranks rs g (push_rank r subhands hands) in
          if is_straight_or_better hands then hands else merged
    ]

-- Whether a popped group joins the hand: the first does, and a high card not yet in the hand.
abbrev pub joins_hand : List SubHand → List Value → SubHand → Outcome Bool
joins_hand [] cards_in_hand h = done true
joins_hand (_ ∷ _) cards_in_hand h =
    if is_rank h.rank Rank.high_card
    then (expect (get_elem? h.values 0) >>= λ v. done (not (any (λ c. c == v) cards_in_hand)))
    else done false

-- The loop over the heap, with the hand so far, its values and their number.
unfoldable pub take_best : List SubHand → List SubHand → List Value → ℕ → Outcome (List SubHand)
take_best [] hand cards_in_hand num_cards = done hand
take_best (h ∷ hands) hand cards_in_hand num_cards =
    let go = λ (hand' : List SubHand) (cards' : List Value) (num' : ℕ).
      let rest = take_best hands hand' cards' num' in
      if not (leb (length hand') 0) && (is_straight_or_better hand' || leb 5 num')
      then done hand'
      else rest in
    joins_hand hand cards_in_hand h >>= λ joined.
    if joined
    then go (hand ++ h ∷ []) (cards_in_hand ++ h.values) (num_cards + length h.values)
    else go hand cards_in_hand num_cards

unfoldable pub choose : Groups → Outcome (List SubHand)
unfolding merge_ranks take_best
choose g = take_best (merge_ranks ranks_descending g g.hands) [] [] 0
