-- ===== src/Entities/Pot/Calls.antt =====
-- What a player owes the pot, before and after a bet.
use private_poker.Prelude.{ℕ, ◌+◌, ◌≡◌, ◌≢◌, ◌≤◌, ◌<◌, refl, [], ◌∷◌, arith, max, u32_mod}
use private_poker.Entities.Pot.{
  Pot, Investments, invest, find_investment, largest, get_call, get_investment_by_player_idx,
  get_call_by_player_idx, bet,
}

find_investment-largest : (i : ℕ) (m : Investments) → find_investment i m ≤ largest m
unfolding find_investment largest
find_investment-largest i [] = omega arith
find_investment-largest i (e ∷ m) = ground (arith, find_investment-largest i m)

find_investment-invest :
    (i amount : ℕ) (m : Investments)
    → find_investment i m + amount < u32_mod
    → find_investment i (invest i amount m) ≡ find_investment i m + amount
unfolding find_investment invest
find_investment-invest i amount [] h = ground arith
find_investment-invest i amount (e ∷ m) h = ground (arith, find_investment-invest i amount m)

find_investment-invest_other :
    (i j amount : ℕ) (m : Investments)
    → i ≢ j
    → find_investment j (invest i amount m) ≡ find_investment j m
unfolding find_investment invest
find_investment-invest_other i j amount [] h = ground (arith, h)
find_investment-invest_other i j amount (e ∷ m) h =
    ground (arith, h, find_investment-invest_other i j amount m h)

largest-invest :
    (i amount : ℕ) (m : Investments)
    → find_investment i m + amount < u32_mod
    → largest (invest i amount m) ≡ max (largest m) (find_investment i m + amount)
unfolding find_investment invest largest
largest-invest i amount [] h = omega arith
largest-invest i amount (e ∷ m) h = ground (arith, largest-invest i amount m)

-- What a player owes, together with what the player has invested, is the largest investment: the
-- subtraction does not wrap around. The condition: the largest investment fits a u32.
pub get_call_by_player_idx-investment :
    (p : Pot) (i : ℕ)
    → get_call p < u32_mod
    → get_call_by_player_idx p i + get_investment_by_player_idx p i ≡ get_call p
unfolding get_call_by_player_idx get_call get_investment_by_player_idx
get_call_by_player_idx-investment p i h = omega (arith, find_investment-largest i p.investments)

-- A player who pays the call owes nothing more, the largest investment stays the same, and no
-- other player comes to owe anything else. The condition: the largest investment fits a u32.
pub bet-call :
    (p : Pot) (i : ℕ)
    → get_call p < u32_mod
    → let p' = bet p i (get_call_by_player_idx p i) in
      (get_call p' ≡ get_call p)
      × (get_call_by_player_idx p' i ≡ 0)
      × ((j : ℕ) → i ≢ j → get_call_by_player_idx p' j ≡ get_call_by_player_idx p j)
unfolding get_call_by_player_idx get_call get_investment_by_player_idx bet
bet-call p i h =
    let small = find_investment-largest i p.investments in
    let call = get_call_by_player_idx p i in
    let pays : find_investment i p.investments + call ≡ largest p.investments =
      omega (arith, small, h) in
    let paid = find_investment-invest i call p.investments (omega (arith, pays, h)) in
    let top : largest (invest i call p.investments) ≡ largest p.investments =
      omega (arith, largest-invest i call p.investments (omega (arith, pays, h)), pays) in
    (
      top,
      omega (arith, top, paid, pays, h),
      λ j other. rw (top, find_investment-invest_other i j call p.investments other) refl,
    )
