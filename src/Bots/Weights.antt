-- ===== src/Bots/Weights.antt =====
-- Which weights an update of pp_bots/src/bot.rs changes.
use private_poker.Prelude.{
  ◌≡◌, ◌↔◌, refl, ◌∙◌, sym, ap, Bool, true, Bool-cases, inl, inr, List, [], ◌∷◌, set, if◌then◌else◌,
  arith,
}
use private_poker.Entities.{Action, discriminant}
use private_poker.Bots.{Floats, Table, QLearning, weights_of, write_back, update_done}

module _ {K F : Type 0} (floats : Floats F) (same : K → K → Bool)
    (same_iff : (a b : K) → (same a b ≡ true) ↔ (a ≡ b)) where
  pub weights_of-write_back :
      (k j : K) (ws : List F) (m : Table K F)
      → weights_of floats same j (write_back floats same k ws m)
        ≡ (if same j k then ws else weights_of floats same j m)
  unfolding weights_of write_back
  weights_of-write_back k j ws [] = refl
  weights_of-write_back k j ws (e ∷ m) =
      ground (arith, weights_of-write_back k j ws m, same_iff j k, same_iff k e.0, same_iff j e.0)

  -- An update at the end of a game sets the weight of the state's action to the reward, keeps the
  -- state's other weights, or their defaults if the state is new, and changes the weights of no
  -- other state. The condition: the equality of states holds just for equal ones.
  pub update_done-weights :
      {D : Type 0} (state other : K) (action : Action) (reward : F) (q : QLearning K F D)
      → weights_of floats same other (update_done floats same state action reward q).table ≡ (
          if same other state
          then set (weights_of floats same other q.table) (discriminant action) reward
          else weights_of floats same other q.table)
  unfolding update_done
  update_done-weights state other action reward q =
      let reset = set (weights_of floats same state q.table) (discriminant action) reward in
      let law = weights_of-write_back state other reset q.table in
      elim (Bool-cases (same other state)) [
        | inl this ↦
            let e = (same_iff other state).0 this in
            rw this at law
            ∙ ap (λ k. set (weights_of floats same k q.table) (discriminant action) reward) (sym e)
            ∙ rw this refl
        | inr another ↦ law ∙ rw another refl
      ]
