-- ===== src/Game/Views.antt =====
-- The views of the game that are sent to users: `as_view` and `get_views` of
-- private_poker/src/game.rs.
pub mod Privacy
use private_poker.Prelude.{
  ℕ, String, ◌||◌, List, [], ◌∷◌, ◌++◌, map, Option, none, str_eq, if◌then◌else◌,
}
use private_poker.Entities.{User, Card, Usd, Username, PlayerView, PotView}
use private_poker.Entities.Usdf.{Usdf}
use private_poker.Entities.Player.{Player}
use private_poker.Entities.NameMap
use private_poker.Entities.Pot
use private_poker.Game.{GameData}
use private_poker.Game.Queries.{is_ready_for_next_phase}

pub record GameView : Type 0 where
  pub donations : Usdf
  pub small_blind : Usd
  pub big_blind : Usd
  pub spectators : List (String × User)
  pub waitlist : List User
  pub open_seats : List ℕ
  pub players : List PlayerView
  pub board : List Card
  pub pot : PotView
  pub small_blind_idx : ℕ
  pub big_blind_idx : ℕ
  pub next_action_idx : Option ℕ

abbrev pub GameViews : Type 0
GameViews = List (String × GameView)

unfoldable pub player_view : Username → Player → PlayerView
player_view username p = record {
  user = p.user;
  state = p.state;
  cards = if str_eq p.user.name username || p.showing then p.cards else [];
}

unfoldable pub as_view : Username → GameData → GameView
unfolding player_view
as_view username d = record {
  donations = d.donations;
  small_blind = d.small_blind;
  big_blind = d.big_blind;
  spectators = d.spectators;
  waitlist = d.waitlist;
  open_seats = d.open_seats;
  players = map (player_view username) d.players;
  board = d.board;
  pot = record { size = Pot.get_size d.pot };
  small_blind_idx = d.small_blind_idx;
  big_blind_idx = d.big_blind_idx;
  next_action_idx = if is_ready_for_next_phase d then none else d.next_action_idx;
}

-- The chain of the spectators', the waitlisters' and the players' names.
unfoldable pub usernames : GameData → List Username
usernames d =
    map (λ e. e.0) d.spectators
    ++ (map (λ u. u.name) d.waitlist ++ map (λ p. p.user.name) d.players)

unfoldable pub insert_views : List Username → GameData → GameViews → GameViews
unfolding as_view
insert_views [] d views = views
insert_views (name ∷ names) d views =
    insert_views names d (NameMap.insert name (as_view name d) views)

unfoldable pub get_views : GameData → GameViews
unfolding usernames insert_views
get_views d = insert_views (usernames d) d []
