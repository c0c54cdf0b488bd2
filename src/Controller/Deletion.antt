-- ===== src/Controller/Deletion.antt =====
-- The finalizer of `Reconcile`.
use vm_file_restore_operator.Base.{
  keep-snoc, exists-append, exists-keep-not, ◌≡◌, ◌≢◌, refl, ℕ, zero, suc, String, true, false,
  ◌=?◌, eq_refl, ap, ◌⊎◌, inl, inr, Option, none, some,
}
use vm_file_restore_operator.Errors.{Error, Result, ok, err}
use vm_file_restore_operator.Types.{Key, FileRestore}
use vm_file_restore_operator.Monad.{Action, pure, ◌>>=◌, on_result, on_option}
use vm_file_restore_operator.Monad.Rules.{Ends, Ends-given, Ends-step, Ends-from}
use vm_file_restore_operator.Api.{Api}
use vm_file_restore_operator.Controller.State.{stop, fail, panicked}
use vm_file_restore_operator.Controller.Access.{cleanup}
use vm_file_restore_operator.Controller.Reconcile.{
  has_finalizer, add_finalizer, remove_finalizer, remove_again, remove_with_retry, handle_deletion,
  finalizer_name,
}

-- An added finalizer is there, and removing it gives the object as it was.
pub remove_finalizer-add :
    (v : FileRestore)
    → has_finalizer v ≡ false
    → (has_finalizer (add_finalizer v) ≡ true) × (remove_finalizer (add_finalizer v) ≡ v)
unfolding remove_finalizer
remove_finalizer-add v h = (
  exists-append (λ f. f =? finalizer_name) v.finalizers finalizer_name (eq_refl finalizer_name),
  rw (keep-snoc (λ f. f =? finalizer_name) v.finalizers finalizer_name h (eq_refl finalizer_name))
      refl,
)

err≢ok : (x : Error) → ¬ (err x ≡ ok (tt {0}))
err≢ok x e = cc

panicked≢stop : (m : String) → panicked m ≢ stop
panicked≢stop m e = cc

fail≢stop : (x : Error) → fail x ≢ stop
fail≢stop x e = cc

pair : {A B : Type 0} (p : A × B) (a : A) → p.0 ≡ a → p ≡ (a, p.1)
pair p a e = ap (λ x. (x, p.1)) e

-- A deletion of the object `v0`, which was read under `key`, from the world `w0`.
module _ (api : Api) (namespace : String) (key : Key) (v0 : FileRestore) (w0 : api.World) where
  open api use {World}

  -- The object and the world of an update: those of the deletion, after the cleanup, or those of a
  -- read of `key` just before.
  abbrev pub Came : FileRestore → World → Type 0
  Came v w =
      ((v ≡ v0) × (w ≡ (cleanup api namespace v0 w0).1))
      ⊎ ((u : World) × (api.get_restore key u ≡ (ok v, w)))

  -- The last call was an update of that object without the finalizer, and it was accepted.
  abbrev pub Released : World → Type 0
  Released w' =
      (v : FileRestore) × (w : World) × (r : FileRestore) × Came v w
      × (api.update_restore (remove_finalizer v) w ≡ (ok r, w'))
      × (has_finalizer (remove_finalizer v) ≡ false)

  abbrev Free : World → Type 0
  Free w = Unit {0}

  -- An answer that says `ok` says that the finalizer is off.
  abbrev Honest : Result (Unit {0}) → World → Type 0
  Honest r w = r ≡ ok tt → Released w

  abbrev Updated : Result FileRestore → World → Type 0
  Updated a w = (r : FileRestore) → a ≡ ok r → Released w

  abbrev Found : Result FileRestore → World → Type 0
  Found a w = (v : FileRestore) → a ≡ ok v → Came v w

  without : (v : FileRestore) → has_finalizer (remove_finalizer v) ≡ false
  unfolding remove_finalizer
  without v = exists-keep-not _ v.finalizers

  update-Honest :
      (v : FileRestore) → Ends (Came v) Updated (api.update_restore (remove_finalizer v))
  update-Honest v = record { at = λ w h r e. (v, w, r, h, pair _ _ e, without v) }

  get-Found : Ends Free Found (api.get_restore key)
  get-Found = record { at = λ w h v e. inr (w, pair _ _ e) }

  error-Honest : (x : Error) → Ends Free Honest (pure (err x))
  unfolding pure
  error-Honest x = record { at = λ w h e. absurd (err≢ok x e) }

  module _ (again : Error → Action World (Result (Unit {0})))
      (k : (x : Error) → Ends Free Honest (again x)) where
    -- One attempt, and more after an error.
    attempt-Honest :
        (a : Result FileRestore) → Ends (Updated a) Honest (on_result a again (λ _. pure (ok tt)))
    unfolding on_result pure
    attempt-Honest (ok r) = record { at = λ w h e. h r refl }
    attempt-Honest (err x) = record { at = λ w h. (k x).at w tt }

    found-Honest :
        (a : Result FileRestore)
        → Ends (Found a) Honest (
            on_result a again (λ v. do
              updated ← api.update_restore (remove_finalizer v)
              on_result updated again (λ _. pure (ok tt))))
    unfolding on_result
    found-Honest (ok v) =
        Ends-from _ (λ w h. h v refl) (Ends-given _ _ (update-Honest v) attempt-Honest)
    found-Honest (err x) = record { at = λ w h. (k x).at w tt }

  remove_again-Honest : (n : ℕ) (x : Error) → Ends Free Honest (remove_again api namespace n key x)
  unfolding remove_again
  remove_again-Honest zero x = error-Honest x
  remove_again-Honest (suc n) x = Ends-given _ _ get-Found (found-Honest _ (remove_again-Honest n))

  remove_with_retry-Honest : Ends (Came v0) Honest (remove_with_retry api namespace key v0)
  unfolding remove_with_retry
  remove_with_retry-Honest =
      Ends-given _ _ (update-Honest v0) (attempt-Honest _ (remove_again-Honest 2))

  answered :
      (a : Result (Unit {0}))
      → Ends
          (Honest a)
          (λ reply w. reply ≡ stop → Released w)
          (on_result a (λ e. pure (fail e)) (λ _. pure stop))
  unfolding on_result pure
  answered (ok x) = record { at = λ w h e. h refl }
  answered (err x) = record { at = λ w h e. absurd (fail≢stop x e) }

  after_cleanup :
      (panic : Option String)
      → Ends
          (Came v0)
          (λ reply w. reply ≡ stop → Released w)
          (on_option panic
            (do
              removed ← remove_with_retry api namespace key v0
              on_result removed (λ e. pure (fail e)) (λ _. pure stop))
            (λ message. pure (panicked message)))
  unfolding on_option pure
  after_cleanup none = Ends-given _ _ remove_with_retry-Honest answered
  after_cleanup (some m) = record { at = λ w h e. absurd (panicked≢stop m e) }

  cleaned : Ends (λ w. w ≡ w0) (λ _. Came v0) (cleanup api namespace v0)
  cleaned = record { at = λ w e. inl (refl, ap (λ x. (cleanup api namespace v0 x).1) e) }

  -- The deletion of an object with the finalizer that answers without an error and without a requeue
  -- has ended with an update that the server accepted: of the object that it was given, after the
  -- cleanup, or of one that it read under the key just before; and without the finalizer.
  pub handle_deletion-Released :
      has_finalizer v0 ≡ true
      → (handle_deletion api namespace key v0 w0).0 ≡ stop
      → Released (handle_deletion api namespace key v0 w0).1
  unfolding handle_deletion
  handle_deletion-Released present = rw present ((Ends-step _ _ cleaned after_cleanup).at w0 refl)
