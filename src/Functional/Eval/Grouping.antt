-- ===== src/Functional/Eval/Grouping.antt =====
-- One round of the loop over the cards in `eval`: flushes, straights, and groups of equal values.
use Prim.Native.Nat.{Ordering}
use private_poker.Prelude.{
  ℕ, zero, suc, ◌+◌, ◌-◌, ◌==◌, List, [], ◌∷◌, ◌++◌, Bool, true, false, not, ◌&&◌, ◌||◌, Option,
  none, some, leb, if◌then◌else◌, length, drop, replicate, get_elem?, add_u8, sub_u8, Outcome, done,
  panic, ◌>>=◌, expect,
}
use mathlib.Core.List.{reverse}
use private_poker.Entities.{Suit, Card, Rank, SubHand, Value}
use private_poker.Functional.Order.{cmp_sub_hand, suit_index, rank_index, is_lt}

-- The binary heap in descending order: its head is what `peek` shows and `pop` takes.
unfoldable pub push_heap : SubHand → List SubHand → List SubHand
unfolding cmp_sub_hand
push_heap h [] = h ∷ []
push_heap h (x ∷ xs) =
    let rest = push_heap h xs in if is_lt (cmp_sub_hand h x) then x ∷ rest else h ∷ x ∷ xs

-- `BTreeSet::insert` and `BTreeSet::remove` on an ascending list.
unfoldable pub insert_set : SubHand → List SubHand → List SubHand
unfolding cmp_sub_hand
insert_set h [] = h ∷ []
insert_set h (x ∷ xs) =
    let rest = insert_set h xs in
    elim (cmp_sub_hand h x) [
      | Ordering.lt ↦ h ∷ x ∷ xs
      | Ordering.eq ↦ x ∷ xs
      | Ordering.gt ↦ x ∷ rest
    ]

unfoldable pub remove_set : SubHand → List SubHand → List SubHand
unfolding cmp_sub_hand
remove_set h [] = []
remove_set h (x ∷ xs) =
    let rest = remove_set h xs in elim (cmp_sub_hand h x) [ Ordering.eq ↦ xs | _ ↦ x ∷ rest ]

-- The maps and sets that the loop keeps. A map is a function: what it gives for a missing key
-- is what `or_default` puts there, and `none` for `subhands_per_rank`.
pub record Groups : Type 0 where
  pub values_per_suit : Suit → List Value
  pub straight_count : ℕ
  pub straight_prev_value : Value
  pub subhands_per_rank : Rank → Option (List SubHand)
  pub value_counts : Value → ℕ
  pub hands : List SubHand

unfoldable pub no_groups : Groups
no_groups = record {
  values_per_suit = λ _. [];
  straight_count = 0;
  straight_prev_value = 0;
  subhands_per_rank = λ _. none;
  value_counts = λ _. 0;
  hands = [];
}

abbrev pub or_default : Option (List SubHand) → List SubHand
or_default none = []
or_default (some s) = s

-- The elements from the last to the first, as `nth_back` counts them.
abbrev pub nth_back : List SubHand → ℕ → Option SubHand
nth_back s n = get_elem? (reverse s) n

abbrev pub values_eq : List Value → List Value → Bool
values_eq [] [] = true
values_eq (x ∷ xs) (y ∷ ys) = (x == y) && values_eq xs ys
values_eq _ _ = false

-- `subhands_per_rank.entry(rank).or_default().insert(h)`, for the rank of `h`.
abbrev pub add_subhand : SubHand → Groups → Groups
add_subhand h g = record g {
  subhands_per_rank = λ r.
      if rank_index r == rank_index h.rank
      then some (insert_set h (or_default (g.subhands_per_rank r)))
      else g.subhands_per_rank r;
}

-- `subhands_per_rank.get_mut(rank).map(|s| s.remove(h))`.
abbrev pub drop_subhand : SubHand → Groups → Groups
drop_subhand h g = record g {
  subhands_per_rank = λ r.
      if rank_index r == rank_index h.rank
      then elim (g.subhands_per_rank r) [ none ↦ none | some s ↦ some (remove_set h s) ]
      else g.subhands_per_rank r;
}

-- The loop over `flush_idx`: each of the first four values is followed by its successor.
abbrev pub are_consecutive : List Value → Bool
are_consecutive [] = true
are_consecutive (x ∷ []) = true
are_consecutive (x ∷ y ∷ ys) = (add_u8 x 1 == y) && are_consecutive (y ∷ ys)

unfoldable pub track_flush : Value → Suit → Groups → Groups
unfolding push_heap
track_flush value suit g =
    let values_in_suit = g.values_per_suit suit ++ value ∷ [] in
    let per_suit = λ (s : Suit).
      if suit_index s == suit_index suit then values_in_suit else g.values_per_suit s in
    let count = length values_in_suit in
    let flush_count = if value == 14 then count - 1 else count in
    let flush_cards = drop (count - 5) values_in_suit in
    let subhand : SubHand = record {
      rank = if are_consecutive flush_cards then Rank.straight_flush else Rank.flush;
      values = reverse flush_cards;
    } in
    record g {
      values_per_suit = per_suit;
      hands = if leb 5 flush_count then push_heap subhand g.hands else g.hands;
    }

-- `(value - 4..=value).rev()`, in `u8`.
abbrev pub count_down : ℕ → ℕ → List ℕ
count_down zero top = []
count_down (suc n) top = top ∷ count_down n (top - 1)

abbrev pub straight_values : Value → List Value
straight_values value = count_down (value + 1 - sub_u8 value 4) value

-- The heap takes a straight only if it holds nothing as good.
abbrev pub push_straight : SubHand → List SubHand → List SubHand
push_straight s [] = push_heap s []
push_straight s (best ∷ hands) =
    if is_lt (cmp_sub_hand best s) then push_heap s (best ∷ hands) else best ∷ hands

unfoldable pub track_straight : Value → Groups → Groups
unfolding push_heap cmp_sub_hand
track_straight value g =
    let count =
      if add_u8 g.straight_prev_value 1 == value
      then g.straight_count + 1
      else if g.straight_prev_value == value
      then g.straight_count
      else 1 in
    record g {
      straight_count = count;
      straight_prev_value = value;
      hands =
          if leb 5 count
          then push_straight (record { rank = Rank.straight; values = straight_values value })
              g.hands
          else g.hands;
    }

abbrev pub group_of : Rank → List Value → SubHand
group_of r vs = record { rank = r; values = vs }

-- Aces count both as 1 and as 14: a pair or a triple of low aces does not join that of the high ones.
abbrev pub joins : Value → SubHand → List Value → Bool
joins value other low_aces = not (value == 14) || not (values_eq other.values low_aces)

abbrev pub with_best : Option SubHand → (SubHand → Groups → Groups) → Groups → Groups
with_best none f g = g
with_best (some h) f g = f h g

-- The first card of a value.
unfoldable pub first_card : Value → Groups → Groups
unfolding insert_set
first_card value g = add_subhand (group_of Rank.high_card (value ∷ [])) g

-- The second: a pair, with another pair a two pair, and with a triple a full house.
unfoldable pub second_card : Value → Groups → Groups
unfolding insert_set
second_card value g0 =
    let g1 = add_subhand (group_of Rank.one_pair (replicate 2 value)) g0 in
    let g2 =
      with_best (nth_back (or_default (g1.subhands_per_rank Rank.one_pair)) 1)
        (λ pair g.
          if joins value pair (1 ∷ 1 ∷ [])
          then add_subhand (group_of Rank.two_pair (replicate 2 value ++ pair.values)) g
          else g)
        g1 in
    with_best (get_elem? (or_default (g2.subhands_per_rank Rank.three_of_a_kind)) 0)
      (λ triple g.
        if joins value triple (1 ∷ 1 ∷ 1 ∷ [])
        then add_subhand (group_of Rank.full_house (triple.values ++ replicate 2 value)) g
        else g)
      g2

-- The third: a triple in place of the pair, and a full house with a pair or another triple.
unfoldable pub third_card : Value → Groups → Outcome Groups
unfolding insert_set remove_set
third_card value g0 =
    let g1 = drop_subhand (group_of Rank.one_pair (replicate 2 value)) g0 in
    let g2 = add_subhand (group_of Rank.three_of_a_kind (replicate 3 value)) g1 in
    let g3 =
      with_best (nth_back (or_default (g2.subhands_per_rank Rank.one_pair)) 0)
        (λ pair g.
          if joins value pair (1 ∷ 1 ∷ [])
          then add_subhand (group_of Rank.full_house (replicate 3 value ++ pair.values)) g
          else g)
        g2 in
    elim (nth_back (or_default (g3.subhands_per_rank Rank.three_of_a_kind)) 1) [
      | none ↦ done g3
      | some triple ↦
          if joins value triple (1 ∷ 1 ∷ 1 ∷ [])
          then (expect (get_elem? triple.values 0) >>= λ v.
              done (add_subhand (group_of Rank.full_house (replicate 3 value ++ replicate 2 v)) g3))
          else done g3
    ]

-- The fourth: four of a kind in place of the triple.
unfoldable pub fourth_card : Value → Groups → Groups
unfolding insert_set remove_set
fourth_card value g =
    add_subhand (group_of Rank.four_of_a_kind (replicate 4 value))
      (drop_subhand (group_of Rank.three_of_a_kind (replicate 3 value)) g)

-- By how many cards of the value were seen, this one included; `true` breaks the loop.
unfoldable pub group_by_count : ℕ → Value → Groups → Outcome (Groups × Bool)
unfolding first_card second_card third_card fourth_card
group_by_count (suc zero) value g = done (first_card value g, false)
group_by_count (suc (suc zero)) value g = done (second_card value g, false)
group_by_count (suc (suc (suc zero))) value g = third_card value g >>= λ g'. done (g', false)
group_by_count (suc (suc (suc (suc zero)))) value g = done (fourth_card value g, true)
group_by_count _ value g = panic

unfoldable pub group_card : Groups → Card → Outcome (Groups × Bool)
unfolding track_flush track_straight group_by_count
group_card g c =
    let tracked = track_straight c.value (track_flush c.value c.suit g) in
    let count = tracked.value_counts c.value + 1 in
    group_by_count count c.value (record tracked {
      value_counts = λ v. if v == c.value then count else tracked.value_counts v;
    })
