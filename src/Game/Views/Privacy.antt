-- ===== src/Game/Views/Privacy.antt =====
-- What a view of the game can tell about the cards of others.
use private_poker.Prelude.{
  ◌≡◌, refl, sym, ap, true, false, ◌||◌, Bool-cases, inl, inr, List, [], ◌∷◌, map, str_eq,
}
use private_poker.Entities.{Card, Username}
use private_poker.Entities.Player.{Player}
use private_poker.Game.{GameData}
use private_poker.Game.Queries.{is_ready_for_next_phase, is_end_of_round, is_ready_for_showdown}
use private_poker.Game.Views.{player_view, as_view}

-- Two players that differ in the cards alone, and that only if the cards are neither shown nor the
-- user's own.
abbrev pub IsAlike : Username → Player → Player → Type 0
IsAlike name p q =
    (p.user ≡ q.user)
    × (p.state ≡ q.state)
    × (p.showing ≡ q.showing)
    × ((str_eq p.user.name name || p.showing) ≡ true → p.cards ≡ q.cards)

abbrev pub AreAlike : Username → List Player → List Player → Type 0
AreAlike name [] [] = Unit {0}
AreAlike name (p ∷ ps) (q ∷ qs) = IsAlike name p q × AreAlike name ps qs
AreAlike name _ _ = ⊥

player_view-IsAlike :
    (name : Username) (p q : Player) → IsAlike name p q → player_view name p ≡ player_view name q
unfolding player_view
player_view-IsAlike name p q (user, state, showing, cards) =
    elim (Bool-cases (str_eq p.user.name name || p.showing)) [
      | inl seen ↦
          let same = cards seen in
          let seen' : (str_eq q.user.name name || q.showing) ≡ true =
            rw (sym user, sym showing) seen in
          rw (seen, seen', same, user, state) refl
      | inr hidden ↦
          let hidden' : (str_eq q.user.name name || q.showing) ≡ false =
            rw (sym user, sym showing) hidden in
          rw (hidden, hidden', user, state) refl
    ]

players-AreAlike :
    (name : Username) (ps qs : List Player)
    → AreAlike name ps qs
    → map (player_view name) ps ≡ map (player_view name) qs
players-AreAlike name [] [] h = refl
players-AreAlike name [] (q ∷ qs) h = elim h [ ]
players-AreAlike name (p ∷ ps) [] h = elim h [ ]
players-AreAlike name (p ∷ ps) (q ∷ qs) (h, hs) =
    rw (player_view-IsAlike name p q h, players-AreAlike name ps qs hs) refl

-- The view that a user gets does not depend on the deck, nor on the cards of another player who
-- does not show them: games that differ in these alone give the user the same view.
pub as_view-AreAlike :
    (name : Username) (d : GameData) (deck : List Card) (players : List Player)
    → AreAlike name d.players players
    → as_view name d ≡ as_view name (record d { deck = deck; players = players })
unfolding as_view is_ready_for_next_phase is_end_of_round is_ready_for_showdown
as_view-AreAlike name d deck players h =
    ap (λ ps. record (as_view name d) { players = ps }) (players-AreAlike name d.players players h)
