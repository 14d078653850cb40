-- ===== src/Game/Deal.antt =====
-- From `Deal` to `TakeAction` in private_poker/src/game.rs, and the cards of the board: `Flop::step`,
-- `Turn::step` and `River::step`. The shuffle of the `rand` crate is an argument.
use private_poker.Prelude.{
  ℕ, zero, suc, ◌+◌, ◌*◌, List, [], ◌∷◌, ◌++◌, Option, length, get_elem?, set, Outcome, done, ◌>>=◌,
  expect,
}
use private_poker.Entities.{Card, Action}
use private_poker.Game.{GameData, range_from}
use private_poker.Game.Queries.{prepare_for_next_phase}
use private_poker.Game.Blinds.{cycle_skip_next}

-- The loop that deals `count` cards more, the next one to the `k`-th seat of the cycle.
unfoldable pub deal_cards : ℕ → ℕ → GameData → Outcome GameData
unfolding range_from
deal_cards zero k d = done d
deal_cards (suc count) k d = cycle_skip_next (range_from 0 (length d.players)) k >>= λ deal_idx.
    expect (get_elem? d.players deal_idx) >>= λ p. expect (get_elem? d.deck d.deck_idx) >>= λ card.
    deal_cards count (k + 1) (record d {
      players = set d.players deal_idx (record p { cards = p.cards ++ card ∷ [] });
      deck_idx = d.deck_idx + 1;
    })

unfoldable pub deal : (List Card → List Card) → GameData → Outcome (GameData × Option (List Action))
unfolding deal_cards
deal shuffle d =
    deal_cards (2 * length d.players) d.small_blind_idx
      (record d { deck = shuffle d.deck; deck_idx = 0 })
    >>= prepare_for_next_phase

-- One card from the deck to the board.
unfoldable pub draw : GameData → Outcome GameData
draw d = expect (get_elem? d.deck d.deck_idx) >>= λ card.
    done (record d { board = d.board ++ card ∷ []; deck_idx = d.deck_idx + 1 })

unfoldable pub flop : GameData → Outcome GameData
unfolding draw
flop d = draw d >>= λ d1. draw d1 >>= λ d2. draw d2

unfoldable pub turn : GameData → Outcome GameData
unfolding draw
turn d = draw d

unfoldable pub river : GameData → Outcome GameData
unfolding draw
river d = draw d
