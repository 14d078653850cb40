-- ===== src/Tests/Codecs.antt =====
-- Codecs of some of the messages of private_poker/src/net/messages.rs.
use private_poker.Prelude.{
  ℕ, zero, suc, ◌≡◌, refl, sym, ap, ◌∙◌, ◌<◌, u32_mod, length, Bool-cases, inl, inr, List, [], ◌∷◌,
  Option, none, some, str_eq, eq_iff, if◌then◌else◌, arith,
}
use private_poker.Prelude.Int.{ℤ, pos, negsuc}
use private_poker.Entities.{Action, all_in, call, check, fold, raise}
use private_poker.Game.{
  UserError, capacity_reached, cannot_show_hand, cannot_start_game, game_already_in_progress,
  game_already_starting, insufficient_funds, invalid_action, invalid_bet, not_enough_players,
  out_of_turn_action, user_already_exists, user_does_not_exist, user_not_playing,
  user_already_showing_hand,
}
use private_poker.Game.Views.{GameView}
use private_poker.Net.Messages.{
  ClientMessage, ServerMessage, UserCommand, connect, leave, change_state, play, spectate, ack,
  user_error, game_view, client_error, status, turn_signal,
}
use private_poker.Net.Utils.{Codec, Coded, coded, code_error}

-- A codec of Bob's commands.
abbrev encode_action : Action → List ℕ
encode_action all_in = 0 ∷ []
encode_action check = 1 ∷ []
encode_action fold = 2 ∷ []
encode_action (call n) = 3 ∷ n ∷ []
encode_action (raise n) = 4 ∷ n ∷ []

abbrev pub encode : UserCommand → List ℕ
encode connect = 0 ∷ []
encode leave = 1 ∷ []
encode (change_state play) = 2 ∷ []
encode (change_state spectate) = 3 ∷ []
encode UserCommand.show_hand = 4 ∷ []
encode UserCommand.start_game = 5 ∷ []
encode (UserCommand.take_action a) = 6 ∷ encode_action a

abbrev pub bobs : UserCommand → ClientMessage
bobs c = record { username = "bob"; command = c }

abbrev decode_action : List ℕ → Coded ClientMessage
decode_action (zero ∷ []) = coded (bobs (UserCommand.take_action all_in))
decode_action (suc zero ∷ []) = coded (bobs (UserCommand.take_action check))
decode_action (suc (suc zero) ∷ []) = coded (bobs (UserCommand.take_action fold))
decode_action (suc (suc (suc zero)) ∷ n ∷ []) = coded (bobs (UserCommand.take_action (call n)))
decode_action (suc (suc (suc (suc zero))) ∷ n ∷ []) =
    coded (bobs (UserCommand.take_action (raise n)))
decode_action _ = code_error

abbrev decode : List ℕ → Coded ClientMessage
decode [] = code_error
decode (zero ∷ bs) = coded (bobs connect)
decode (suc zero ∷ bs) = coded (bobs leave)
decode (suc (suc zero) ∷ bs) = coded (bobs (change_state play))
decode (suc (suc (suc zero)) ∷ bs) = coded (bobs (change_state spectate))
decode (suc (suc (suc (suc zero))) ∷ bs) = coded (bobs UserCommand.show_hand)
decode (suc (suc (suc (suc (suc zero)))) ∷ bs) = coded (bobs UserCommand.start_game)
decode (suc (suc (suc (suc (suc (suc n))))) ∷ bs) = decode_action bs

decode-encode : (c : UserCommand) → decode (encode c) ≡ coded (bobs c)
decode-encode connect = refl
decode-encode leave = refl
decode-encode (change_state play) = refl
decode-encode (change_state spectate) = refl
decode-encode UserCommand.show_hand = refl
decode-encode UserCommand.start_game = refl
decode-encode (UserCommand.take_action all_in) = refl
decode-encode (UserCommand.take_action check) = refl
decode-encode (UserCommand.take_action fold) = refl
decode-encode (UserCommand.take_action (call n)) = refl
decode-encode (UserCommand.take_action (raise n)) = refl

abbrev or_empty : Coded (List ℕ) → List ℕ
or_empty (coded bytes) = bytes
or_empty _ = []

abbrev encode_message : ClientMessage → Coded (List ℕ)
encode_message msg = if str_eq msg.username "bob" then coded (encode msg.command) else code_error

pub decode-encode_message :
    (msg : ClientMessage) (bytes : List ℕ)
    → encode_message msg ≡ coded bytes
    → decode bytes ≡ coded msg
decode-encode_message msg bytes e = elim (Bool-cases (str_eq msg.username "bob")) [
  | inl bob ↦
      ap (λ x. decode (or_empty x)) (sym (rw bob at e))
      ∙ decode-encode msg.command
      ∙ ap (λ u. coded (record { username = u; command = msg.command })) (sym ((eq_iff _ _).0 bob))
  | inr other ↦ cc (rw other at e)
]

abbrev pub client_codec : Codec ClientMessage
client_codec = record {
  serialize = encode_message;
  deserialize = decode;
  serialize-deserialize = decode-encode_message;
}

pub few_bytes : (c : UserCommand) → length (encode c) < u32_mod
few_bytes connect = omega arith
few_bytes leave = omega arith
few_bytes (change_state play) = omega arith
few_bytes (change_state spectate) = omega arith
few_bytes UserCommand.show_hand = omega arith
few_bytes UserCommand.start_game = omega arith
few_bytes (UserCommand.take_action all_in) = omega arith
few_bytes (UserCommand.take_action check) = omega arith
few_bytes (UserCommand.take_action fold) = omega arith
few_bytes (UserCommand.take_action (call n)) = omega arith
few_bytes (UserCommand.take_action (raise n)) = omega arith

-- A codec of acknowledgements, of one error, and of views of an empty table.
abbrev plain {ℓ} : {A : Type ℓ} → List A → Coded (List ℕ) → Coded (List ℕ)
plain [] bytes = bytes
plain (x ∷ xs) bytes = code_error

abbrev plain_option : Option ℕ → Coded (List ℕ) → Coded (List ℕ)
plain_option none bytes = bytes
plain_option (some x) bytes = code_error

abbrev plain_number : ℤ → List ℕ → Coded (List ℕ)
plain_number (pos n) bytes = coded (2 ∷ n ∷ bytes)
plain_number (negsuc n) bytes = code_error

abbrev encode_view : GameView → Coded (List ℕ)
encode_view v = plain v.spectators (
    plain v.waitlist (
      plain v.open_seats (
        plain v.players (
          plain v.board (
            plain_option v.next_action_idx (
              plain_number v.donations (
                v.small_blind ∷ v.big_blind ∷ v.pot.size ∷ v.small_blind_idx ∷ v.big_blind_idx
                ∷ [])))))))

abbrev pub empty_table : ℕ → ℕ → ℕ → ℕ → ℕ → ℕ → GameView
empty_table d sb bb size i j = record {
  donations = pos d;
  small_blind = sb;
  big_blind = bb;
  spectators = [];
  waitlist = [];
  open_seats = [];
  players = [];
  board = [];
  pot = record { size = size };
  small_blind_idx = i;
  big_blind_idx = j;
  next_action_idx = none;
}

abbrev encode_error : UserError → Coded (List ℕ)
encode_error capacity_reached = coded (1 ∷ [])
encode_error _ = code_error

abbrev tagged : Coded (List ℕ) → Coded (List ℕ)
tagged (coded bytes) = coded (0 ∷ bytes)
tagged _ = code_error

abbrev encode_answer : ServerMessage → Coded (List ℕ)
encode_answer (ack msg) = tagged (encode_message msg)
encode_answer (user_error e) = encode_error e
encode_answer (game_view v) = encode_view v
encode_answer (client_error _) = code_error
encode_answer (status _) = code_error
encode_answer (turn_signal _) = code_error

abbrev acked : Coded ClientMessage → Coded ServerMessage
acked (coded msg) = coded (ack msg)
acked _ = code_error

abbrev decode_view : List ℕ → Coded ServerMessage
decode_view (d ∷ sb ∷ bb ∷ size ∷ i ∷ j ∷ []) = coded (game_view (empty_table d sb bb size i j))
decode_view _ = code_error

abbrev decode_answer : List ℕ → Coded ServerMessage
decode_answer [] = code_error
decode_answer (zero ∷ bs) = acked (decode bs)
decode_answer (suc zero ∷ bs) = coded (user_error capacity_reached)
decode_answer (suc (suc n) ∷ bs) = decode_view bs

plain-empty {ℓ} :
    {A : Type ℓ} (xs : List A) (k : Coded (List ℕ)) (bytes : List ℕ)
    → plain xs k ≡ coded bytes
    → (xs ≡ []) × (k ≡ coded bytes)
plain-empty [] k bytes e = (refl, e)
plain-empty (x ∷ xs) k bytes e = cc

plain_option-none :
    (o : Option ℕ) (k : Coded (List ℕ)) (bytes : List ℕ)
    → plain_option o k ≡ coded bytes
    → (o ≡ none) × (k ≡ coded bytes)
plain_option-none none k bytes e = (refl, e)
plain_option-none (some x) k bytes e = cc

plain_number-pos :
    (z : ℤ) (tail bytes : List ℕ)
    → plain_number z tail ≡ coded bytes
    → (n : ℕ) × (z ≡ pos n) × (bytes ≡ 2 ∷ n ∷ tail)
plain_number-pos (pos n) tail bytes e = (n, refl, ap or_empty (sym e))
plain_number-pos (negsuc n) tail bytes e = cc

decode-encode_view :
    (v : GameView) (bytes : List ℕ)
    → encode_view v ≡ coded bytes
    → decode_answer bytes ≡ coded (game_view v)
decode-encode_view v bytes e =
    let (no_spectators, e1) = plain-empty v.spectators _ bytes e in
    let (no_waitlist, e2) = plain-empty v.waitlist _ bytes e1 in
    let (no_seats, e3) = plain-empty v.open_seats _ bytes e2 in
    let (no_players, e4) = plain-empty v.players _ bytes e3 in
    let (no_board, e5) = plain-empty v.board _ bytes e4 in
    let (no_turn, e6) = plain_option-none v.next_action_idx _ bytes e5 in
    let (n, donated, coded_as) = plain_number-pos v.donations _ bytes e6 in
    let same : empty_table n v.small_blind v.big_blind v.pot.size v.small_blind_idx v.big_blind_idx
        ≡ v =
      cc in
    ap decode_answer coded_as ∙ ap (λ x. coded (game_view x)) same

pub decode-encode_answer :
    (msg : ServerMessage) (bytes : List ℕ)
    → encode_answer msg ≡ coded bytes
    → decode_answer bytes ≡ coded msg
decode-encode_answer (ack msg) bytes e = elim (Bool-cases (str_eq msg.username "bob")) [
  | inl bob ↦
      ap (λ x. decode_answer (or_empty x)) (sym (rw bob at e))
      ∙ ap acked (decode-encode_message msg (encode msg.command) (rw bob refl))
  | inr other ↦ cc (rw other at e)
]
decode-encode_answer (user_error capacity_reached) bytes e =
    ap (λ x. decode_answer (or_empty x)) (sym e)
decode-encode_answer (game_view v) bytes e = decode-encode_view v bytes e
decode-encode_answer (client_error _) bytes e = cc
decode-encode_answer (status _) bytes e = cc
decode-encode_answer (turn_signal _) bytes e = cc
decode-encode_answer (user_error cannot_show_hand) bytes e = cc
decode-encode_answer (user_error cannot_start_game) bytes e = cc
decode-encode_answer (user_error game_already_in_progress) bytes e = cc
decode-encode_answer (user_error game_already_starting) bytes e = cc
decode-encode_answer (user_error (insufficient_funds _)) bytes e = cc
decode-encode_answer (user_error (invalid_action _)) bytes e = cc
decode-encode_answer (user_error (invalid_bet _)) bytes e = cc
decode-encode_answer (user_error not_enough_players) bytes e = cc
decode-encode_answer (user_error out_of_turn_action) bytes e = cc
decode-encode_answer (user_error user_already_exists) bytes e = cc
decode-encode_answer (user_error user_does_not_exist) bytes e = cc
decode-encode_answer (user_error user_not_playing) bytes e = cc
decode-encode_answer (user_error user_already_showing_hand) bytes e = cc

abbrev pub server_codec : Codec ServerMessage
server_codec = record {
  serialize = encode_answer;
  deserialize = decode_answer;
  serialize-deserialize = decode-encode_answer;
}
