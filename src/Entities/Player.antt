-- ===== src/Entities/Player.antt =====
-- `Player` of private_poker/src/game/entities.rs.
use private_poker.Prelude.{ℕ, Bool, false, List, []}
use private_poker.Entities.{User, Card, PlayerState}

pub record Player : Type 0 where
  pub user : User
  pub state : PlayerState
  pub cards : List Card
  pub showing : Bool
  pub seat_idx : ℕ

-- `Player::new`.
abbrev pub new : User → ℕ → Player
new user seat_idx = record {
  user = user;
  state = PlayerState.wait;
  cards = [];
  showing = false;
  seat_idx = seat_idx;
}

abbrev pub reset : Player → Player
reset p = record p { state = PlayerState.wait; cards = []; showing = false }
