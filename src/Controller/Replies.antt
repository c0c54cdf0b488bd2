-- ===== src/Controller/Replies.antt =====
-- What a step that stores a phase may answer.
use vm_file_restore_operator.Base.{String}
use vm_file_restore_operator.Errors.{Error}
use vm_file_restore_operator.Types.{RestorePhase}
use vm_file_restore_operator.Monad.{Action, pure}
use vm_file_restore_operator.Monad.Rules.{Ends, Keeps, ends_rules}
use vm_file_restore_operator.Api.{Api}
use vm_file_restore_operator.Controller.State.{Reply, stop, requeue, fail}
use vm_file_restore_operator.Controller.Cleaning.{Ends-cleanup}
use vm_file_restore_operator.Controller.Steps.{transition_phase, fail_restore}

-- The replies of a step that stores a phase: an error, or `r`.
pub data OneOf (r : Reply) : Reply → Type 0 where
  is_error : (e : Error) → OneOf r (fail e)
  is_it : OneOf r r

module _ {S : Type 0} where
  abbrev pub Always : S → Type 0
  Always s = Unit {0}

  anything : {A : Type 0} (m : Action S A) → Keeps Always m
  anything m = record { at = λ s h. tt }

module _ {S : Type 0} (r : Reply) where
  abbrev pub Replies : Reply → S → Type 0
  Replies reply s = OneOf r reply

  pure-error : (e : Error) → Ends Always (Replies) (pure {S = S} (fail e))
  unfolding pure
  pure-error e = record { at = λ s h. is_error e }

  pure-it : Ends Always (Replies) (pure {S = S} r)
  unfolding pure
  pure-it = record { at = λ s h. is_it }

module _ (api : Api) where
  open api use {World}

  pub transition_phase-Replies :
      (q : RestorePhase) (message : String)
      → Ends Always (Replies requeue) (transition_phase api q message)
  unfolding transition_phase
  transition_phase-Replies q message = search (ends_rules, anything, pure-error, pure-it) depth 12

  pub fail_restore-Replies :
      (namespace : String) (e : Error) (detail : String)
      → Ends Always (Replies stop) (fail_restore api namespace e detail)
  unfolding fail_restore
  fail_restore-Replies namespace e detail =
      search (Ends-cleanup api namespace, ends_rules, anything, pure-error, pure-it) depth 12
