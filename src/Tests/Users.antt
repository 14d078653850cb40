-- ===== src/Tests/Users.antt =====
-- The users' operations of private_poker/src/game.rs at concrete games: nobody is counted twice.
use private_poker.Game.{new_game_data}
use private_poker.Game.Users.{new_user, waitlist_user, spectate_user, remove_user}
use private_poker.Game.Census.{IsCensus}
use private_poker.Game.Census.Invariant.{
  new_user-IsCensus, waitlist_user-IsCensus, spectate_user-IsCensus,
}
use private_poker.Game.Census.Removal.{Removes, remove_user-Removes}
use private_poker.Game.Census.Join.{Joins, new_user-census}
use private_poker.Tests.{table, seated, new_game_data-IsCensus, table-IsCensus, seated-IsCensus}

new_user-IsCensus_example : IsCensus (new_user "cid" table).0
new_user-IsCensus_example = new_user-IsCensus "cid" table table-IsCensus

waitlist_user-IsCensus_example : IsCensus (waitlist_user "ann" (new_user "ann" new_game_data).0).0
waitlist_user-IsCensus_example =
    waitlist_user-IsCensus "ann" (new_user "ann" new_game_data).0
      (new_user-IsCensus "ann" new_game_data new_game_data-IsCensus)

spectate_user-IsCensus_example : IsCensus (spectate_user "bob" seated).0
spectate_user-IsCensus_example = spectate_user-IsCensus "bob" seated seated-IsCensus

remove_user-Removes_example : Removes "bob" seated (remove_user "bob" seated)
remove_user-Removes_example = remove_user-Removes "bob" seated seated-IsCensus

new_user-census_example : Joins "cid" table (new_user "cid" table).0
new_user-census_example = new_user-census "cid" table
