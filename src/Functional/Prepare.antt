-- ===== src/Functional/Prepare.antt =====
-- `prepare_hand` of private_poker/src/game/functional.rs.
use private_poker.Prelude.{
  ℕ, zero, suc, ◌+◌, List, [], ◌∷◌, ◌++◌, Option, none, some, if◌then◌else◌, get_elem?, ◌==◌,
}
use private_poker.Entities.{Card}
use private_poker.Functional.Order.{cmp_card, is_gt}

-- `sort_unstable` on cards: equal cards are the same card, so every sort gives this list.
unfoldable pub insert_card : Card → List Card → List Card
unfolding cmp_card
insert_card c [] = c ∷ []
insert_card c (x ∷ xs) =
    let rest = insert_card c xs in if is_gt (cmp_card c x) then x ∷ rest else c ∷ x ∷ xs

unfoldable pub sort_cards : List Card → List Card
unfolding insert_card
sort_cards [] = []
sort_cards (c ∷ cs) = insert_card c (sort_cards cs)

-- One round of the loop: an ace at the index is pushed once more as a 14.
abbrev pub push_ace : List Card → Option Card → List Card
push_ace cards none = cards
push_ace cards (some c) =
    if c.value == 1 then cards ++ record { value = 14; suit = c.suit } ∷ [] else cards

unfoldable pub push_aces : ℕ → ℕ → List Card → List Card
push_aces zero idx cards = cards
push_aces (suc n) idx cards = push_aces n (idx + 1) (push_ace cards (get_elem? cards idx))

unfoldable pub prepare_hand : List Card → List Card
unfolding sort_cards push_aces
prepare_hand cards = push_aces 4 0 (sort_cards cards)
