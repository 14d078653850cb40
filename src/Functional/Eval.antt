-- ===== src/Functional/Eval.antt =====
-- `eval` of private_poker/src/game/functional.rs: the pass over the sorted cards (Grouping) and the
-- choice of the best hand from what it found (Choose).
pub mod Grouping
pub mod Choose
use private_poker.Prelude.{List, [], ◌∷◌, Bool, true, false, Outcome, done, ◌>>=◌}
use private_poker.Entities.{Card, SubHand}
use Grouping.{Groups, no_groups, group_card}
use Choose.{choose}

-- The loop over the cards; a fourth card of a value breaks it.
unfoldable pub group_cards : Groups → List Card → Outcome Groups
unfolding group_card
group_cards g [] = done g
group_cards g (c ∷ cards) = do
  (g', broken) ← group_card g c
  elim broken [ true ↦ done g' | false ↦ group_cards g' cards ]

unfoldable pub eval : List Card → Outcome (List SubHand)
unfolding group_cards choose
eval cards = group_cards no_groups cards >>= choose
