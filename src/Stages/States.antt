-- ===== src/Stages/States.antt =====
-- An extension in a known state whose assertions have all held, through the operations on extensions.
use plugify.Prelude.{ℕ, ◌≡◌, refl, ◌∙◌, true, Bool-cases, inl, inr, ltb}
use plugify.Extension.State.{ExtensionState, ExtensionType, is_valid_transition}
use plugify.Extension.Core.{
  Extension, Message, set_state, start_operation, end_operation, add_error, add_warning,
  get_operation_time,
}
use plugify.Loader.Frame.{SameCore}
use plugify.Stages.Failure.{check_timeout}

pub record Now (t : ExtensionType) (s : ExtensionState) (e : Extension) : Type 0 where
  pub type_is : e.type ≡ t
  pub state_is : e.state ≡ s
  pub sound : e.asserts_hold ≡ true

module _ {t : ExtensionType} {s : ExtensionState} {e : Extension} (now : Now t s e) where
  pub set_state-Now :
      (to : ExtensionState) → is_valid_transition s to ≡ true → Now t to (set_state to e)
  unfolding set_state
  set_state-Now to h = record {
    type_is = now.type_is;
    state_is = refl;
    sound = rw (now.sound, now.state_is) h;
  }

  pub start_operation-Now :
      (to : ExtensionState) → is_valid_transition s to ≡ true → Now t to (start_operation to e)
  unfolding start_operation
  start_operation-Now to h = set_state-Now to h

  pub end_operation-Now :
      (to : ExtensionState) (d : ℕ)
      → is_valid_transition s to ≡ true
      → Now t to (end_operation to d e)
  unfolding end_operation
  end_operation-Now to d h = record {
    type_is = now.type_is;
    state_is = refl;
    sound = rw (now.sound, now.state_is) h;
  }

  pub add_error-Now : (m : Message) → Now t s (add_error m e)
  unfolding add_error
  add_error-Now m = record { type_is = now.type_is; state_is = now.state_is; sound = now.sound }

  pub add_warning-Now : (m : Message) → Now t s (add_warning m e)
  unfolding add_warning
  add_warning-Now m = record { type_is = now.type_is; state_is = now.state_is; sound = now.sound }

  pub SameCore-Now : {y : Extension} → SameCore e y → Now t s y
  SameCore-Now c = record {
    type_is = c.same_type ∙ now.type_is;
    state_is = c.same_state ∙ now.state_is;
    sound = c.same_asserts ∙ now.sound;
  }

  pub check_timeout-Now : (timeout : ℕ) (r : ExtensionState) → Now t s (check_timeout timeout r e)
  unfolding check_timeout
  check_timeout-Now timeout r =
      elim (Bool-cases (ltb timeout (get_operation_time r e.timepoints))) [
        | inl h ↦
            rw h (record { type_is = now.type_is; state_is = now.state_is; sound = now.sound })
        | inr h ↦ rw h now
      ]
