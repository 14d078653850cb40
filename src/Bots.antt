-- ===== src/Bots.antt =====
-- pp_bots/src/bot.rs: the table of weights by which a bot learns. The floats, with what the code does
-- to them, and the distribution `WeightedIndex` of the crate rand are parameters: `D` is its state,
-- which an update of weights changes or refuses (an error or a panic), and from which an index is
-- drawn by a random number.
pub mod Weights
pub mod Sampling
use private_poker.Prelude.{
  ℕ, suc, Bool, true, false, List, [], ◌∷◌, Option, none, some, set, any, map, if◌then◌else◌,
  Outcome, done, panic, ◌>>=◌, expect, get_elem?, ◌==◌,
}
use private_poker.Entities.{Action, all_in, call, check, fold, raise, action_eq, discriminant}

-- The floats, with the comparison of two of them, which a NaN does not have.
pub record Floats (F : Type 0) : Type 0 where
  pub zero : F
  pub fifth : F
  pub one : F
  pub add : F → F → F
  pub sub : F → F → F
  pub mul : F → F → F
  pub exp : F → F
  pub less : F → F → Option Bool

-- `ACTIONS_ARRAY`.
abbrev pub actions_array : List Action
actions_array = all_in ∷ call 0 ∷ check ∷ fold ∷ raise 0 ∷ []

-- Weights for a key: a state is a list of sub-hands.
abbrev pub Table : Type 0 → Type 0 → Type 0
Table K F = List (K × List F)

pub record QLearning (K F D : Type 0) : Type 0 where
  pub alpha : F
  pub gamma : F
  pub dist : D
  pub table : Table K F

-- What the code uses of `WeightedIndex`: `new`, `update_weights` and `sample`.
pub record Weighted (F D R : Type 0) : Type 0 where
  pub new : List F → Option D
  pub update_weights : List (ℕ × F) → D → Option D
  pub draw : D → R → ℕ

-- `iter().enumerate()`, from an index on.
unfoldable pub enumerate {ℓ} : {A : Type ℓ} → ℕ → List A → List (ℕ × A)
enumerate i [] = []
enumerate i (x ∷ xs) = (i, x) ∷ enumerate (suc i) xs

-- `masks.get(action)`.
unfoldable pub get_mask : Action → List Action → Option Action
get_mask a [] = none
get_mask a (m ∷ ms) = let rest = get_mask a ms in if action_eq a m then some m else rest

abbrev pub has_mask : Action → List Action → Bool
has_mask a ms = any (action_eq a) ms

module _ {K F : Type 0} (floats : Floats F) (same : K → K → Bool) where
  abbrev pub q_s_default : List F
  q_s_default = floats.fifth ∷ floats.one ∷ floats.one ∷ floats.one ∷ floats.fifth ∷ []

  -- `entry(state).or_insert(Q_S_DEFAULT)`: the weights, which are written back.
  unfoldable pub weights_of : K → Table K F → List F
  weights_of k [] = q_s_default
  weights_of k (e ∷ m) = if same k e.0 then e.1 else weights_of k m

  unfoldable pub write_back : K → List F → Table K F → Table K F
  write_back k ws [] = (k, ws) ∷ []
  write_back k ws (e ∷ m) =
      let rest = write_back k ws m in if same k e.0 then (e.0, ws) ∷ m else e ∷ rest

  unfoldable pub new : {D R : Type 0} → Weighted F D R → F → F → Outcome (QLearning K F D)
  new weighted alpha gamma = expect (weighted.new q_s_default) >>= λ dist.
      done (record { alpha = alpha; gamma = gamma; dist = dist; table = [] })

  -- The exponentials of the weights, and zero for an action that is not allowed.
  unfoldable pub masked : List Action → List Action → List F → List F
  masked masks [] ws = []
  masked masks (a ∷ acts) [] = []
  masked masks (a ∷ acts) (w ∷ ws) =
      let rest = masked masks acts ws in
      (if has_mask a masks then floats.exp w else floats.zero) ∷ rest

  unfoldable pub sample :
      {D R : Type 0}
      → Weighted F D R
      → R
      → K
      → List Action
      → QLearning K F D
      → Outcome (QLearning K F D × Action)
  unfolding masked
  sample weighted random state masks q =
      let old_weights = weights_of state q.table in
      let new_weights = enumerate 0 (masked masks actions_array old_weights) in
      expect (weighted.update_weights new_weights q.dist) >>= λ dist.
      let q' = record q { dist = dist; table = write_back state old_weights q.table } in
      expect (get_elem? actions_array (weighted.draw dist random)) >>= λ action.
      expect (get_mask action masks) >>= λ a. done (q', a)

  unfoldable pub update_done : {D : Type 0} → K → Action → F → QLearning K F D → QLearning K F D
  update_done state action reward q =
      let q_s = weights_of state q.table in
      record q { table = write_back state (set q_s (discriminant action) reward) q.table }

  -- The weights of the actions that are allowed, whose largest one is the last of equal ones.
  unfoldable pub allowed : List ℕ → ℕ → List F → List F
  allowed idxs i [] = []
  allowed idxs i (w ∷ ws) =
      let rest = allowed idxs (suc i) ws in if any (λ j. j == i) idxs then w ∷ rest else rest

  unfoldable pub max_from : F → List F → Outcome F
  max_from best [] = done best
  max_from best (w ∷ ws) = expect (floats.less w best) >>= λ smaller.
      let kept = max_from best ws in let taken = max_from w ws in if smaller then kept else taken

  unfoldable pub max_weight : List F → Outcome F
  unfolding max_from
  max_weight [] = panic
  max_weight (w ∷ ws) = max_from w ws

  unfoldable pub update_step :
      {D : Type 0} → K → Action → F → K → List Action → QLearning K F D → Outcome (QLearning K F D)
  unfolding allowed max_weight
  update_step state1 action reward state2 masks2 q =
      let q_s2 = weights_of state2 q.table in
      let table2 = write_back state2 q_s2 q.table in
      max_weight (allowed (map discriminant masks2) 0 q_s2) >>= λ best.
      let td_target = floats.add reward (floats.mul q.gamma best) in
      let q_s1 = weights_of state1 table2 in
      expect (get_elem? q_s1 (discriminant action)) >>= λ old.
      let new_weight = floats.add old (floats.mul q.alpha (floats.sub td_target old)) in
      done
        (record q { table = write_back state1 (set q_s1 (discriminant action) new_weight) table2 })
