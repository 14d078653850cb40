-- ===== src/Lib.antt =====
-- A model of the poker game of private_poker, and what can be proved of it.
--
-- The program is a server that keeps one game of no-limit poker, with clients and bots that talk to
-- it over TCP. The game itself is the crate private_poker/src: the data (game/entities.rs), the
-- evaluation of hands (game/functional.rs), and a state machine over the phases of a hand
-- (game.rs), which the server steps on a timer and sends the users' requests to. The server
-- (net/server.rs) has two threads, one for the sockets and one for the game, which exchange the
-- messages of net/messages.rs; net/utils.rs puts a message on a stream, and net/client.rs is a client's
-- side of it. This library models these files, and the learning of the bots (pp_bots/src/bot.rs).
--
-- Which file models which part:
-- - Entities and its children: private_poker/src/game/entities.rs and game/constants.rs. Usdf is the
--   `f32` of the donations, Pot the investments, Player a seat; NameMap and NameSet are
--   `HashMap<String, V>` and `BTreeSet<String>` with the operations that the game uses.
-- - Functional and its children: private_poker/src/game/functional.rs. Order has the derived orders,
--   Deck is `new_deck`, Prepare `prepare_hand`, Argmax `argmax`, and Eval is `eval`, of which
--   Grouping is the loop over the cards and Choose the choice of the best five.
-- - Game: `UserError`, `GameSettings` and `GameData` of private_poker/src/game.rs.
-- - Game/Queries: the methods of `Game<T>` that read the data and that set up a round of betting;
--   Game/Users: the users' operations, both between hands and during one; Game/Views: `as_view` and
--   `get_views`; Game/Lobby: `Game<Lobby>`.
-- - Game/Seats, Blinds, Deal, Betting, Showdown and Cleanup: the transitions from one phase to the
--   next, in the order of a hand, with `affect` and `act` in Betting and `distribute` in Showdown.
-- - Game/Phases: `PokerState`; Phases/Step is `step`, and Phases/Requests the users' requests.
-- - Net/Messages and Net/Utils: private_poker/src/net/messages.rs and net/utils.rs; Net/Io has the
--   error kinds of `std::io`, and Net/TokenMap is `BTreeMap<Token, V>` and `BTreeSet<Token>`.
-- - Net/Tokens: `TokenManager` of private_poker/src/net/server.rs. Tokens/Status has what it promises, one
--   status for each token; Operations, Recycling, Fresh, Expiry, Fairness, Soundness, Claims and Lookup
--   are proofs.
-- - Net/Server: the network thread of net/server.rs. Relay is the arm for the game thread's messages,
--   Clients that for a client's socket, Thread the loop. Consistency, Relaying, Reading, Processing,
--   Turns, Flooding, Usernames and Ownership are proofs.
-- - Net/Server/GameThread: the game thread of net/server.rs. Replies, Acting and Effects are about
--   what an accepted command has done, Warnings and Endings about how the inner loop ends.
-- - Net/Client: private_poker/src/net/client.rs. Client/Exchange has what the server makes of a
--   client's calls, Client/Handshake how a client connects.
-- - Bots: `QLearning` of pp_bots/src/bot.rs, the table by which a bot learns, with proofs in Weights
--   and Sampling.
--
-- Game<T> in a phase is its GameData, with what the phase itself keeps beside it. A `&mut self`
-- method is a function from the data to the data after the call and its result. A transition that
-- can panic returns an Outcome, `panic` for an `expect`, an index out of bounds, a division by zero
-- or `unreachable!`. Machine integers wrap around, as in the release build that the Dockerfile
-- makes, so each `+`, `-` and `*` on a `u32` is written with its `% 2 ^ 32`.
--
-- A `HashMap` is an association list whose order is the order that iteration has; the theorems hold
-- for every order. The shuffle of the deck (the crate rand) is an argument of `deal` and `step`. The
-- sort of equal cards cannot be told from a stable one; equal investments keep the list's order. An
-- `f32` holds whole dollars only, since the game puts nothing else into it, and is an integer
-- rounded to 24 significant bits after each operation; 128 halvings of a value are enough for the
-- exponent of a finite `f32`. The endless `cycle().find(..)` for the next waiting player runs on as
-- many positions as there are players, since the cycle repeats then; where no player waits, the
-- model panics and the program loops.
--
-- The network thread is a function of what happens to it: the connections that wait, the messages
-- of the other thread, and for each read and write of a client's socket its result, after which
-- the socket would block. Its state has the messages that it sends to the game thread. A part of it
-- ends with a value, with an error that ends the thread, or with a panic (Net/Server/Run). The game
-- thread is a function of what it receives, and when. The rounds of its inner loop are counted, and
-- a theorem about them is for any number of rounds; a round in which all that is received has been
-- taken while a second or more is left ends as `waits`. The hash maps and sets over tokens are gone through
-- in ascending order, while the program's order is not fixed. The floats of a bot's weights are any
-- type with the operations that the code uses; the distribution that a bot draws from (`WeightedIndex`
-- of the crate rand) is a state with the three operations that the code calls.
--
-- The proofs: Game/Census takes the spectators, the waitlist and the players together, by sums over
-- all users; Game/Money, on top of it, is about the stacks, the pot and the donations; Game/Phases
-- has the boards (Board, BoardAfter, Street) and the states that can be reached (Reach). Betting/Refusal,
-- Blinds/Positions, Queries/Waiting, Views/Privacy, Entities/Pot/Calls, Functional/Order/Laws
-- and Functional/Argmax/Reference stand below the parts they are about. Tests has runs of the model
-- at concrete games.
--
-- Not modelled: texts for display (`fmt::Display`, `action_options_to_string`); of the server
-- (private_poker/src/net/server.rs) the registration of streams with the poll, its errors, the ends of
-- the channels and the settings' defaults; the terminal client (pp_client), the play and the program
-- of the bots (pp_bots), and the main program (pp_server): they read messages, show them and send
-- what the user or the bot chooses.
pub mod Prelude
pub mod Entities
pub mod Functional
pub mod Game
pub mod Net
pub mod Bots
pub mod Tests
