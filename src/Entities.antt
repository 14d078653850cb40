-- ===== src/Entities.antt =====
-- private_poker/src/game/constants.rs and private_poker/src/game/entities.rs: the types of the
-- game. `Usd` and `Value` are machine words kept as natural numbers; a `HashMap` is an association
-- list whose order stands for the iteration order, and a `BTreeSet` is an ascending list.
pub mod Usdf
pub mod NameSet
pub mod NameMap
pub mod Pot
pub mod Player
use private_poker.Prelude.{ℕ, String, Bool, true, false, List, ◌/◌, ◌+◌, ◌==◌}

abbrev pub max_players : ℕ
max_players = 10

abbrev pub default_max_users : ℕ
default_max_users = max_players + 6

abbrev pub max_user_input_length : ℕ
max_user_input_length = 16

pub data Suit : Type 0 where
  club spade diamond heart wild : Suit

-- A `u8`.
abbrev pub Value : Type 0
Value = ℕ

-- The tuple struct `Card(Value, Suit)`.
pub record Card : Type 0 where
  pub value : Value
  pub suit : Suit

pub data Rank : Type 0 where
  high_card one_pair two_pair three_of_a_kind straight flush full_house four_of_a_kind
        straight_flush :
      Rank

pub record SubHand : Type 0 where
  pub rank : Rank
  pub values : List Value

-- A `u32`.
abbrev pub Usd : Type 0
Usd = ℕ

abbrev pub Username : Type 0
Username = String

abbrev pub default_buy_in : Usd
default_buy_in = 200

abbrev pub default_min_big_blind : Usd
default_min_big_blind = default_buy_in / 20

abbrev pub default_min_small_blind : Usd
default_min_small_blind = default_min_big_blind / 2

pub record User : Type 0 where
  pub name : Username
  pub money : Usd

pub data Action : Type 0 where
  all_in : Action
  call : Usd → Action
  check : Action
  fold : Action
  raise : Usd → Action

-- The variant's number, which `Into<usize>` returns.
abbrev pub discriminant : Action → ℕ
discriminant all_in = 0
discriminant (call _) = 1
discriminant check = 2
discriminant fold = 3
discriminant (raise _) = 4

-- `PartialEq for Action` compares the variants and not the amounts.
abbrev pub action_eq : Action → Action → Bool
action_eq a b = discriminant a == discriminant b

pub data BetAction : Type 0 where
  all_in call raise : BetAction

pub record Bet : Type 0 where
  pub action : BetAction
  pub amount : Usd

-- `From<Bet> for Action`.
abbrev pub action_of_kind : BetAction → Usd → Action
action_of_kind BetAction.all_in amount = Action.all_in
action_of_kind BetAction.call amount = Action.call amount
action_of_kind BetAction.raise amount = Action.raise amount

abbrev pub action_of_bet : Bet → Action
action_of_bet b = action_of_kind b.action b.amount

pub data PlayerState : Type 0 where
  all_in call check fold raise wait : PlayerState

abbrev pub is_fold : PlayerState → Bool
is_fold PlayerState.fold = true
is_fold _ = false

abbrev pub is_wait : PlayerState → Bool
is_wait PlayerState.wait = true
is_wait _ = false

-- The views that are sent to users.
pub record PlayerView : Type 0 where
  pub user : User
  pub state : PlayerState
  pub cards : List Card

pub record PotView : Type 0 where
  pub size : Usd
