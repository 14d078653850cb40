-- ===== src/Game/Showdown.antt =====
-- From `ShowHands` to `DistributePot` and on in private_poker/src/game.rs: the hands are shown, and
-- one pot after the other goes to its winners.
use mathlib.Core.List.{reverse}
use private_poker.Prelude.{
  ℕ, zero, suc, ◌/◌, ◌==◌, true, not, ◌&&◌, List, [], ◌∷◌, ◌++◌, Option, none, some, ltb,
  if◌then◌else◌, length, get_elem?, set, count_by, keep_if, min, add_u32, sub_u32, Outcome, done,
  panic, ◌>>=◌, expect,
}
use private_poker.Entities.{Usd, Card, SubHand, is_fold}
use private_poker.Entities.Player.{Player}
use private_poker.Entities.Pot.{Investments}
use private_poker.Entities.Usdf.{Usdf, usdf_of, ◌+f◌, ◌-f◌}
use private_poker.Functional.Prepare.{prepare_hand}
use private_poker.Functional.Eval.{eval}
use private_poker.Functional.Argmax.{argmax}
use private_poker.Game.{GameData}

-- `hand_eval_cache`.
abbrev pub HandEvalCache : Type 0
HandEvalCache = List (ℕ × List SubHand)

unfoldable pub show_invested : Investments → List Player → Outcome (List Player)
show_invested [] players = done players
show_invested ((i, _) ∷ m) players = expect (get_elem? players i) >>= λ p.
    show_invested m
      (if is_fold p.state then players else set players i (record p { showing = true }))

-- The hands are shown if more than one player is left.
unfoldable pub show_hands : GameData → Outcome GameData
unfolding show_invested
show_hands d =
    if ltb 1 (count_by (λ p. not (is_fold p.state)) d.players)
    then (show_invested d.pot.investments d.players >>= λ players.
        done (record d { players = players }))
    else done d

-- The investments sorted, here the largest first; the loop below reads them in that order.
unfoldable pub insert_investment : ℕ × ℕ → Investments → Investments
insert_investment e [] = e ∷ []
insert_investment e (x ∷ xs) =
    let rest = insert_investment e xs in if ltb e.1 x.1 then x ∷ rest else e ∷ x ∷ xs

unfoldable pub sort_investments : Investments → Investments
unfolding insert_investment
sort_investments [] = []
sort_investments (e ∷ m) = insert_investment e (sort_investments m)

-- The investments in the pot (the largest first), its call, and the investments left out of it.
pub record PotSplit : Type 0 where
  pub pot_call : Usd
  pub inside : Investments
  pub outside : Investments

-- The loop down from the largest investment, to the first of a player that has not folded and has
-- invested less.
unfoldable pub split_pot : Usd → List Player → Investments → Outcome PotSplit
split_pot largest_call players [] =
    done (record { pot_call = largest_call; inside = []; outside = [] })
split_pot largest_call players (e ∷ m) =
    let rest = split_pot largest_call players m in
    expect (get_elem? players e.0) >>= λ p.
    if not (is_fold p.state) && ltb e.1 largest_call
    then done (record { pot_call = sub_u32 largest_call e.1; inside = []; outside = e ∷ m })
    else (rest >>= λ s. done (record s { inside = e ∷ s.inside }))

-- What the loop over the pot gathers: its size, the players in it, their hands, the cache, and the
-- investments that remain.
pub record Gathered : Type 0 where
  pub pot_size : Usd
  pub seats_in_pot : List ℕ
  pub hands_in_pot : List (List SubHand)
  pub cache : HandEvalCache
  pub remaining : Investments

unfoldable pub cached_hand : ℕ → HandEvalCache → Option (List SubHand)
cached_hand i [] = none
cached_hand i ((j, hand) ∷ cache) = if i == j then some hand else cached_hand i cache

-- `entry(player_idx).or_insert_with(hand_eval)`.
unfoldable pub evaluate_hand :
    ℕ → Player → List Card → HandEvalCache → Outcome (List SubHand × HandEvalCache)
unfolding cached_hand eval prepare_hand
evaluate_hand i p board cache = elim (cached_hand i cache) [
  | some hand ↦ done (hand, cache)
  | none ↦ eval (prepare_hand (p.cards ++ board)) >>= λ hand. done (hand, cache ++ (i, hand) ∷ [])
]

abbrev pub enter_pot : ℕ → Player → List Card → Gathered → Outcome Gathered
enter_pot i p board g =
    if is_fold p.state
    then done g
    else (evaluate_hand i p board g.cache >>= λ r. done (record g {
      seats_in_pot = g.seats_in_pot ++ i ∷ [];
      hands_in_pot = g.hands_in_pot ++ r.0 ∷ [];
      cache = r.1;
    }))

unfoldable pub gather : Usd → List Player → List Card → Investments → Gathered → Outcome Gathered
unfolding evaluate_hand
gather pot_call players board [] g = done g
gather pot_call players board ((i, investment) ∷ m) g =
    let pot_investment = min pot_call investment in
    expect (get_elem? players i) >>= λ p.
    enter_pot i p board (record g {
      pot_size = add_u32 g.pot_size pot_investment;
      remaining = g.remaining ++ (i, sub_u32 investment pot_investment) ∷ [];
    })
    >>= gather pot_call players board m

abbrev pub win : Usd → Player → Player
win amount p = record p { user = record (p.user) { money = add_u32 p.user.money amount } }

-- The loop over the winners: each gets the same split, and the remainder goes down.
unfoldable pub pay_winners :
    Usd → List ℕ → List ℕ → List Player → Usdf → Outcome (List Player × Usdf)
pay_winners pot_split seats [] players pot_remainder = done (players, pot_remainder)
pay_winners pot_split seats (w ∷ winners) players pot_remainder =
    expect (get_elem? seats w) >>= λ i. expect (get_elem? players i) >>= λ p.
    pay_winners pot_split seats winners (set players i (win pot_split p))
      (pot_remainder -f usdf_of pot_split)

-- `pot_size / num_winners`, which panics on a pot that nobody wins.
abbrev pub checked_div : ℕ → ℕ → Outcome ℕ
checked_div a zero = panic
checked_div a (suc b) = done (a / suc b)

-- The pot, from the sorted investments.
unfoldable pub distribute_sorted :
    Investments → GameData → HandEvalCache → Outcome (GameData × HandEvalCache)
unfolding split_pot gather pay_winners
distribute_sorted [] d cache = done (d, cache)
distribute_sorted (e ∷ m) d cache = split_pot e.1 d.players (e ∷ m) >>= λ s.
    gather s.pot_call d.players d.board (reverse s.inside)
      (record { pot_size = 0; seats_in_pot = []; hands_in_pot = []; cache = cache; remaining = [] })
    >>= λ g.
        let winners = argmax g.hands_in_pot in
        checked_div g.pot_size (length winners) >>= λ pot_split.
        pay_winners pot_split g.seats_in_pot winners d.players (usdf_of g.pot_size) >>= λ r. done (
          record d {
            players = r.0;
            donations = d.donations +f r.1;
            pot = record { investments = s.outside ++ g.remaining };
          },
          g.cache,
        )

-- `retain`: null investments go.
abbrev pub remove_null : GameData → GameData
remove_null d = record d {
  pot = record { investments = keep_if (λ e. ltb 0 e.1) d.pot.investments };
}

unfoldable pub distribute : GameData → HandEvalCache → Outcome (GameData × HandEvalCache)
unfolding sort_investments distribute_sorted
distribute d cache = distribute_sorted (sort_investments d.pot.investments) d cache >>= λ r.
    done (remove_null r.0, r.1)
