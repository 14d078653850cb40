-- ===== src/Functional.antt =====
-- private_poker/src/game/functional.rs: decks, the preparation and the evaluation of hands, and the
-- choice of the winning hands.
pub mod Order
pub mod Deck
pub mod Prepare
pub mod Argmax
pub mod Eval
