-- ===== src/Game/Blinds/Positions.antt =====
-- Where the button's move puts the blinds and the first action.
use mathlib.Core.List.{reverse, reverse-cons}
use native.Mathlib.Nat.{mod-lt, mod-add-mod, mod-eq_of_lt, mod_self, eq-or-lt_of_le}
use private_poker.Prelude.{
  sym, inl, inr, ℕ, zero, suc, ◌+◌, ◌-◌, ◌%◌, ◌≡◌, ◌<◌, ◌≤◌, refl, ◌∙◌, ap, List, [], ◌∷◌, ◌++◌,
  some, arith, length, length-append, get_elem?, done,
}
use private_poker.Game.{GameData, range_from}
use private_poker.Game.Blinds.{cycle_skip_next, move_button}

length-range_from : (start n : ℕ) → length (range_from start n) ≡ n
unfolding range_from
length-range_from start zero = refl
length-range_from start (suc n) = ap suc (length-range_from (start + 1) n)

get_elem?-range_from : (start n i : ℕ) → i < n → get_elem? (range_from start n) i ≡ some (start + i)
unfolding range_from
get_elem?-range_from start zero i h = ground (arith, h)
get_elem?-range_from start (suc n) zero h = ap some (omega arith)
get_elem?-range_from start (suc n) (suc i) h =
    get_elem?-range_from (start + 1) n i (omega (arith, h)) ∙ ap some (omega arith)

module _ {ℓ} {A : Type ℓ} where
  get_elem?-append_left :
      (xs ys : List A) (i : ℕ) → i < length xs → get_elem? (xs ++ ys) i ≡ get_elem? xs i
  get_elem?-append_left [] ys i h = ground (arith, h)
  get_elem?-append_left (x ∷ xs) ys zero h = refl
  get_elem?-append_left (x ∷ xs) ys (suc i) h = get_elem?-append_left xs ys i (omega (arith, h))

  get_elem?-append_last : (xs : List A) (y : A) → get_elem? (xs ++ y ∷ []) (length xs) ≡ some y
  get_elem?-append_last [] y = refl
  get_elem?-append_last (x ∷ xs) y = get_elem?-append_last xs y

  length-reverse : (xs : List A) → length (reverse xs) ≡ length xs
  length-reverse [] = refl
  length-reverse (x ∷ xs) =
      omega (
        arith,
        ap length (reverse-cons x xs),
        length-append (reverse xs) (x ∷ []),
        length-reverse xs,
      )

  -- The i-th of the reverse is the i-th from the end.
  get_elem?-reverse :
      (xs : List A) (i : ℕ)
      → i < length xs
      → get_elem? (reverse xs) i ≡ get_elem? xs (length xs - 1 - i)
  get_elem?-reverse [] i h = ground (arith, h)
  get_elem?-reverse (x ∷ xs) i h =
      let within : i ≤ length xs = omega (arith, h) in
      elim (eq-or-lt_of_le within) [
        | inl last ↦
            let first : 0 ≡ suc (length xs) - 1 - i = omega (arith, last) in
            ap (λ l. get_elem? l i) (reverse-cons x xs)
            ∙ ap (get_elem? (reverse xs ++ x ∷ [])) (last ∙ sym (length-reverse xs))
            ∙ get_elem?-append_last (reverse xs) x
            ∙ ap (get_elem? (x ∷ xs)) first
        | inr inner ↦
            let later : suc (length xs - 1 - i) ≡ suc (length xs) - 1 - i = omega (arith, inner) in
            ap (λ l. get_elem? l i) (reverse-cons x xs)
            ∙ get_elem?-append_left (reverse xs) (x ∷ []) i
                (omega (arith, inner, length-reverse xs))
            ∙ get_elem?-reverse xs i inner
            ∙ ap (get_elem? (x ∷ xs)) later
      ]

cycle-range_from : (n k : ℕ) → 0 < n → cycle_skip_next (range_from 0 n) k ≡ done (k % n)
cycle-range_from n k h =
    rw (length-range_from 0 n, get_elem?-range_from 0 n (k % n) (mod-lt k h))
      (ap done (omega arith))

cycle-reverse :
    (n k : ℕ) → 0 < n → cycle_skip_next (reverse (range_from 0 n)) k ≡ done (n - 1 - k % n)
cycle-reverse n k h =
    let len : length (reverse (range_from 0 n)) ≡ n =
      length-reverse (range_from 0 n) ∙ length-range_from 0 n in
    let inside : k % n < n = mod-lt k h in
    let found : get_elem? (reverse (range_from 0 n)) (k % n) ≡ some (n - 1 - k % n) =
      get_elem?-reverse (range_from 0 n) (k % n) (omega (arith, inside, length-range_from 0 n))
      ∙ ap (λ l. get_elem? (range_from 0 n) (l - 1 - k % n)) (length-range_from 0 n)
      ∙ get_elem?-range_from 0 n (n - 1 - k % n) (omega (arith, inside))
      ∙ ap some (omega arith) in
    rw (len, found) refl

-- The player before `big`, which the reversed cycle finds.
before : (n big : ℕ) → big < n → (n - 1 - (n - big) % n + 1) % n ≡ big
before n zero h =
    let whole : (n - 0) % n ≡ 0 = ap (λ k. k % n) (omega arith) ∙ mod_self n in
    let back : n - 1 - 0 + 1 ≡ n = omega (arith, h) in rw whole (ap (λ k. k % n) back ∙ mod_self n)
before n (suc b) h =
    let less : n - suc b < n = omega (arith, h) in
    let back : n - 1 - (n - suc b) + 1 ≡ suc b = omega (arith, h) in
    rw (mod-eq_of_lt less) (ap (λ k. k % n) back ∙ mod-eq_of_lt h)

-- With at least one player the button moves, each position is one that a player sits at, the big
-- blind moves on by one player, the small blind comes right before it and the first action right
-- after it, going round the players.
pub move_button-positions :
    (d : GameData)
    → 1 ≤ length d.players
    → let n = length d.players in
      (d' : GameData) × (move_button d ≡ done d')
      × (d'.big_blind_idx ≡ (d.big_blind_idx + 1) % n)
      × ((d'.small_blind_idx + 1) % n ≡ d'.big_blind_idx)
      × (d'.starting_action_idx ≡ (d'.big_blind_idx + 1) % n)
      × (d'.small_blind_idx < n)
      × (d'.big_blind_idx < n)
      × (d'.starting_action_idx < n)
unfolding move_button
move_button-positions d h =
    let n = length d.players in
    let big = (d.big_blind_idx + 1) % n in
    let start = (d.big_blind_idx + 2) % n in
    let small = n - 1 - (n - big) % n in
    let inside : big < n = mod-lt (d.big_blind_idx + 1) h in
    let two : d.big_blind_idx + 1 + 1 ≡ d.big_blind_idx + 2 = omega arith in
    let d' = record d {
      big_blind_idx = big;
      starting_action_idx = start;
      next_action_idx = some start;
      small_blind_idx = small;
    } in
    (
      d',
      rw
          (
            cycle-range_from n (d.big_blind_idx + 1) h,
            cycle-range_from n (d.big_blind_idx + 2) h,
            cycle-reverse n (n - big) h,
          )
          refl,
      refl,
      before n big inside,
      sym (mod-add-mod (d.big_blind_idx + 1) n 1 ∙ ap (λ k. k % n) two),
      omega (arith, h),
      inside,
      mod-lt (d.big_blind_idx + 2) h,
    )
