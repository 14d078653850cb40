-- ===== src/Game/Betting/Refusal.antt =====
-- What a refused action leaves behind.
use private_poker.Prelude.{
  ℕ, ◌≡◌, refl, ◌∙◌, ap, subst, false, List, Option, none, some, Bool-cases, inl, inr, done, expect,
  >>=-eq-done, done-injective, get_elem?,
}
use private_poker.Entities.{Action, Bet}
use private_poker.Entities.Player.{Player}
use private_poker.Game.{GameData, Result, ok, err, UserError}
use private_poker.Game.Queries.{get_next_action_idx, get_next_action_options}
use private_poker.Game.Betting.{
  affect_player, affect_at, finish_act, act, Acted, place_bet, apply_counted, Counted, is_option,
}

-- A result that is an error comes with the data as they were.
abbrev IsUntouched : GameData → GameData × Result Action → Type 0
IsUntouched d r = (x : UserError) → r.1 ≡ err x → r.0 ≡ d

apply_counted-IsUntouched :
    (i : ℕ) (p : Player) (b : Bet) (d : GameData) (r : Result Counted)
    → IsUntouched d (apply_counted i p b d r)
apply_counted-IsUntouched i p b d (ok c) x e = cc
apply_counted-IsUntouched i p b d (err y) x e = refl

place_bet-IsUntouched :
    (i : ℕ) (p : Player) (b : Bet) (d : GameData) → IsUntouched d (place_bet i p b d)
unfolding place_bet
place_bet-IsUntouched i p b d = apply_counted-IsUntouched i p _ d _

affect_player-IsUntouched :
    (i : ℕ) (p : Player) (a : Action) (d : GameData) → IsUntouched d (affect_player i p a d)
affect_player-IsUntouched i p Action.all_in d = place_bet-IsUntouched i p _ d
affect_player-IsUntouched i p (Action.call amount) d = place_bet-IsUntouched i p _ d
affect_player-IsUntouched i p Action.check d = λ x e. cc
affect_player-IsUntouched i p Action.fold d = λ x e. cc
affect_player-IsUntouched i p (Action.raise amount) d = place_bet-IsUntouched i p _ d

affect_at-IsUntouched :
    (next : Option ℕ) (options : Option (List Action)) (a : Action) (d : GameData)
    (r : GameData × Result Action)
    → affect_at next options a d ≡ done r
    → IsUntouched d r
unfolding affect_at
affect_at-IsUntouched none options a d r e = subst (IsUntouched d) (done-injective e) (λ x k. refl)
affect_at-IsUntouched (some i) none a d r e = subst (IsUntouched d) (done-injective e) (λ x k. refl)
affect_at-IsUntouched (some i) (some options) a d r e = elim (Bool-cases (is_option a options)) [
  | inr refused ↦ subst (IsUntouched d) (done-injective (rw refused at e)) (λ x k. refl)
  | inl allowed ↦
      let (p, found, r') = >>=-eq-done (expect (get_elem? d.players i)) _ (rw allowed at e) in
      subst (IsUntouched d) (done-injective r') (affect_player-IsUntouched i p a d)
]

finish_act-err :
    (options : Option (List Action)) (d d0 : GameData) (r : Result Action) (a : Acted)
    (x : UserError)
    → finish_act options d r ≡ done a
    → a.result ≡ err x
    → ((y : UserError) → r ≡ err y → d ≡ d0)
    → (a.game_data ≡ d0) × (a.options ≡ options)
finish_act-err options d d0 (err y) a x e failed same =
    subst (λ (z : Acted). (z.game_data ≡ d0) × (z.options ≡ options)) (done-injective e)
      (same y refl, refl)
finish_act-err options d d0 (ok y) a x e failed same =
    let (next, e1, r1) = >>=-eq-done (get_next_action_idx false d) _ e in
    let (options', e2, r2) =
      >>=-eq-done (get_next_action_options (record d { next_action_idx = next })) _ r1 in
    let k : ok y ≡ err x = ap (λ (z : Acted). z.result) (done-injective r2) ∙ failed in cc

-- If a call of `act` ends with an error, whichever it is, then it has changed nothing: neither the
-- game's data nor the options of the player whose turn it is.
pub act-err :
    (action : Action) (options : Option (List Action)) (d : GameData) (a : Acted) (x : UserError)
    → act action options d ≡ done a
    → a.result ≡ err x
    → (a.game_data ≡ d) × (a.options ≡ options)
unfolding act
act-err action options d a x e failed =
    let (r, e1, r1) = >>=-eq-done (affect_at d.next_action_idx options action d) _ e in
    finish_act-err options r.0 d r.1 a x r1 failed
      (affect_at-IsUntouched d.next_action_idx options action d r e1)
