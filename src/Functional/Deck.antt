-- ===== src/Functional/Deck.antt =====
-- `new_deck` of private_poker/src/game/functional.rs.
use private_poker.Prelude.{ℕ, zero, suc, ◌+◌, ◌*◌, List, [], ◌∷◌, set, replicate}
use private_poker.Entities.{Suit, Card}

abbrev pub deck_suits : List Suit
deck_suits = Suit.club ∷ Suit.spade ∷ Suit.diamond ∷ Suit.heart ∷ []

-- The inner loop: `deck[4 * i + j] = Card(value, suit)`.
fill_suits : ℕ → ℕ → ℕ → List Suit → List Card → List Card
fill_suits i j value [] deck = deck
fill_suits i j value (s ∷ suits) deck =
    fill_suits i (j + 1) value suits (set deck (4 * i + j) (record { value = value; suit = s }))

-- The outer loop, over the `count` values from `value` on, at the positions from `i` on.
fill_values : ℕ → ℕ → ℕ → List Card → List Card
unfolding fill_suits
fill_values zero i value deck = deck
fill_values (suc count) i value deck =
    fill_values count (i + 1) (value + 1) (fill_suits i 0 value deck_suits deck)

unfoldable pub new_deck : List Card
unfolding fill_values
new_deck = fill_values 13 0 1 (replicate 52 (record { value = 0; suit = Suit.wild }))
