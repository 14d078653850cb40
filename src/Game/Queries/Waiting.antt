-- ===== src/Game/Queries/Waiting.antt =====
-- The search for the player who acts next.
use native.Mathlib.Nat.{
  mod-lt, mod-eq_of_lt, add-mod-mod, div-add-mod, add-mul-mod_self_left, add-mod_right,
}
use private_poker.Prelude.{
  ℕ, zero, suc, ◌+◌, ◌-◌, ◌*◌, ◌/◌, ◌%◌, ◌≡◌, ◌<◌, refl, sym, ◌∙◌, ap, Bool, true, false, List, [],
  ◌∷◌, some, arith, length, get_elem?, done, ◌>>=◌, Bool-cases, inl, inr, if◌then◌else◌,
}
use private_poker.Entities.{is_wait}
use private_poker.Entities.Player.{Player}
use private_poker.Game.{GameData}
use private_poker.Game.Queries.{find_waiting, next_waiting, get_next_action_idx, is_end_of_round}

module _ {ℓ} {A : Type ℓ} where
  get_elem?-inside : (xs : List A) (i : ℕ) (x : A) → get_elem? xs i ≡ some x → i < length xs
  get_elem?-inside [] i x e = cc
  get_elem?-inside (y ∷ xs) zero x e = omega arith
  get_elem?-inside (y ∷ xs) (suc i) x e = omega (arith, get_elem?-inside xs i x e)

  get_elem?-total : (xs : List A) (i : ℕ) → i < length xs → (x : A) × (get_elem? xs i ≡ some x)
  get_elem?-total [] i h = absurd (omega (arith, h))
  get_elem?-total (y ∷ xs) zero h = (y, refl)
  get_elem?-total (y ∷ xs) (suc i) h = get_elem?-total xs i (omega (arith, h))

-- A player at an index who waits.
abbrev pub Waits : List Player → ℕ → Type 0
Waits ps i = (p : Player) × (get_elem? ps i ≡ some p) × (is_wait p.state ≡ true)

-- The positions from `k` on reach every index within one round.
distance : (n k i : ℕ) → i < n → (t : ℕ) × (t < n) × ((k + t) % n ≡ i)
distance n k i h =
    let t = (i + n - k % n) % n in
    let less : k % n < n = mod-lt k (omega (arith, h)) in
    let whole : n * (k / n) + k % n ≡ k = div-add-mod k n in
    let apart : k + (i + n - k % n) ≡ i + n + n * (k / n) = omega (arith, less, whole) in
    (
      t,
      mod-lt (i + n - k % n) (omega (arith, h)),
      add-mod-mod k (i + n - k % n) n
          ∙ ap (λ x. x % n) apart
          ∙ add-mul-mod_self_left (i + n) n (k / n)
          ∙ add-mod_right i n
          ∙ mod-eq_of_lt h,
    )

find_waiting-Waits :
    (fuel k t : ℕ) (ps : List Player)
    → t < fuel
    → Waits ps ((k + t) % length ps)
    → (j : ℕ) × (find_waiting fuel ps k ≡ done j) × Waits ps j
unfolding find_waiting
find_waiting-Waits zero k t ps h w = absurd (omega (arith, h))
find_waiting-Waits (suc fuel) k zero ps h (p, there, waits) =
    let here : k + 0 ≡ k = omega arith in
    let first : get_elem? ps (k % length ps) ≡ some p =
      ap (λ x. get_elem? ps (x % length ps)) (sym here) ∙ there in
    (k % length ps, rw (first, waits) refl, (p, first, waits))
find_waiting-Waits (suc fuel) k (suc t) ps h (p, there, waits) =
    let inside = get_elem?-inside ps ((k + suc t) % length ps) p there in
    let (p0, first) = get_elem?-total ps (k % length ps) (mod-lt k (omega (arith, inside))) in
    let onward : k + 1 + t ≡ k + suc t = omega arith in
    let there' : get_elem? ps ((k + 1 + t) % length ps) ≡ some p =
      ap (λ x. get_elem? ps (x % length ps)) onward ∙ there in
    let (j, rest, w) = find_waiting-Waits fuel (k + 1) t ps (omega (arith, h)) (p, there', waits) in
    elim (Bool-cases (is_wait p0.state)) [
      | inl found ↦
          let e : find_waiting (suc fuel) ps k ≡ done (k % length ps) =
            rw (first, found, find_waiting) refl in
          (k % length ps, e, (p0, first, found))
      | inr not_yet ↦
          let e : find_waiting (suc fuel) ps k ≡ done j = rw (first, not_yet, find_waiting) rest in
          (j, e, w)
    ]

next_waiting-Waits :
    (ps : List Player) (k i : ℕ)
    → Waits ps i
    → (j : ℕ) × (next_waiting ps k ≡ done (some j)) × Waits ps j
unfolding next_waiting
next_waiting-Waits [] k i (p, there, waits) = cc
next_waiting-Waits (q ∷ ps) k i (p, there, waits) =
    let (t, less, there') = distance (length (q ∷ ps)) k i (get_elem?-inside (q ∷ ps) i p there) in
    let (j, e, w) =
      find_waiting-Waits (length (q ∷ ps)) k t (q ∷ ps) less
        (p, ap (get_elem? (q ∷ ps)) there' ∙ there, waits) in
    (j, ap (λ m. m >>= λ x. done (some x)) e, w)

-- If the round of betting is not over, it is some player's turn and some player waits to act, then
-- the endless search for the next player ends, within one round of the players, at a player who
-- waits to act; this holds at the start of a phase and after an action.
pub get_next_action_idx-Waits :
    (d : GameData) (new_phase : Bool) (from i : ℕ)
    → is_end_of_round d ≡ false
    → d.next_action_idx ≡ some from
    → Waits d.players i
    → (j : ℕ) × (get_next_action_idx new_phase d ≡ done (some j)) × Waits d.players j
unfolding get_next_action_idx next_waiting
get_next_action_idx-Waits d new_phase from i goes_on turn w =
    rw (goes_on, turn) (next_waiting-Waits d.players (from + (if new_phase then 0 else 1)) i w)
