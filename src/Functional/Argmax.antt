-- ===== src/Functional/Argmax.antt =====
-- `argmax` of private_poker/src/game/functional.rs.
pub mod Reference
use Prim.Native.Nat.{Ordering}
use private_poker.Prelude.{ℕ, ◌+◌, List, [], ◌∷◌, ◌++◌}
use private_poker.Entities.{Rank, SubHand}
use private_poker.Functional.Order.{cmp_hand}

-- The hand that the loop starts from.
abbrev pub floor_hand : List SubHand
floor_hand = record { rank = Rank.high_card; values = 0 ∷ [] } ∷ []

-- The loop from index `i` on, with the best hand so far and the indices that hold it.
unfoldable pub argmax_from : ℕ → List SubHand → List ℕ → List (List SubHand) → List ℕ
unfolding cmp_hand
argmax_from i best argmaxes [] = argmaxes
argmax_from i best argmaxes (hand ∷ hands) = elim (cmp_hand hand best) [
  | Ordering.eq ↦ argmax_from (i + 1) best (argmaxes ++ i ∷ []) hands
  | Ordering.gt ↦ argmax_from (i + 1) hand (i ∷ []) hands
  | Ordering.lt ↦ argmax_from (i + 1) best argmaxes hands
]

unfoldable pub argmax : List (List SubHand) → List ℕ
unfolding argmax_from
argmax hands = argmax_from 0 floor_hand [] hands
