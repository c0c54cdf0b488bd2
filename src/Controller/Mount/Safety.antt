-- ===== src/Controller/Mount/Safety.antt =====
-- A whole reconciliation, and sequences of them, on panics.
use vm_file_restore_operator.Base.{
  ◌≡◌, inl, inr, refl, sym, subst, ◌∙◌, String, false, Bool-cases, is_some,
}
use vm_file_restore_operator.Errors.{Result, ok, err, is_not_found}
use vm_file_restore_operator.Types.{Key, FileRestore, Status}
use vm_file_restore_operator.Monad.{Action, pure, ◌>>=◌}
use vm_file_restore_operator.Monad.Rules.{Ends, Keeps, ends_rules}
use vm_file_restore_operator.Api.{Api}
use vm_file_restore_operator.Server.{IsServer, Sees}
use vm_file_restore_operator.Controller.State.{St, Reply}
use vm_file_restore_operator.Controller.Cleaning.{Ends-on_cleanup}
use vm_file_restore_operator.Controller.Steps.{is_terminal}
use vm_file_restore_operator.Controller.Reconcile.{
  handle_deletion, handle_live, reconcile, has_finalizer,
}
use vm_file_restore_operator.Controller.Panics.{NoPanic, run_phase_handler-NoPanic}
use vm_file_restore_operator.Controller.Persistence.Reconciling.{
  handle_deletion-Keeps, add_finalizer-Keeps,
}
use vm_file_restore_operator.Controller.Mount.{Ready}
use vm_file_restore_operator.Controller.Mount.Reconciling.{run_phase_handler-Ready}
use vm_file_restore_operator.Controller.Runs.{Step, Runs, reconciled, outside, here, after}

module _ (api : Api) (namespace : String) where
  open api use {World}

  abbrev Any : World → Type 0
  Any w = Unit {0}

  abbrev Calm : Reply → World → Type 0
  Calm r w = NoPanic r

  any : {A : Type 0} (m : Action World A) → Keeps Any m
  any m = record { at = λ w h. tt }

  calm : (r : Reply) → NoPanic r → Ends Any Calm (pure r)
  unfolding pure
  calm r n = record { at = λ w h. n }

  handle_deletion-Calm :
      (k : Key) (v : FileRestore) → Ends Any Calm (handle_deletion api namespace k v)
  unfolding handle_deletion
  handle_deletion-Calm k v =
      search (Ends-on_cleanup api namespace, ends_rules, any, calm, tt) depth 12

  add_finalizer-Calm :
      (v : FileRestore) → has_finalizer v ≡ false → Ends Any Calm (handle_live api namespace v)
  unfolding handle_live
  add_finalizer-Calm v absent = rw absent (search (ends_rules, any, calm, tt) depth 12)

module _ (api : Api) (stored : api.World → Status) (server : IsServer api stored)
    (namespace : String) where
  open api use {World}

  -- The action does not panic, and leaves no phase that needs a mount path without one.
  abbrev pub Sound : Action World Reply → World → Type 0
  Sound m w = NoPanic (m w).0 × Ready (stored (m w).1)

  handle_live-Sound :
      (v : FileRestore) (w : World)
      → v.status ≡ stored w
      → Ready (stored w)
      → Sound (handle_live api namespace v) w
  unfolding handle_live pure
  handle_live-Sound v w e r = elim (Bool-cases (has_finalizer v)) [
    | inr absent ↦ (
      (add_finalizer-Calm api namespace v absent).at w tt,
      subst Ready
          (sym ((add_finalizer-Keeps api stored server namespace v (stored w) absent).at w refl)) r,
    )
    | inl present ↦ elim (Bool-cases (is_terminal v.status.phase)) [
      | inl final ↦ rw (present, final) (tt, r)
      | inr going ↦
          let s : St World = record { world = w; restore = v } in
          rw (present, going)
            (
              run_phase_handler-NoPanic api namespace v.status.phase s
                  (λ h. (subst Ready (sym e) r (rw h refl)).filled),
              run_phase_handler-Ready api stored server namespace v.status.phase going s refl
                  (e, r),
            )
    ]
  ]

  fetched-Sound :
      (k : Key) (w : World) (found : Result FileRestore)
      → (api.get_restore k w).0 ≡ found
      → Sees api stored k w
      → Ready (stored (api.get_restore k w).1)
      → Sound (reconcile api namespace k) w
  unfolding reconcile ◌>>=◌ pure
  fetched-Sound k w (err x) e sees r = elim (Bool-cases (is_not_found x)) [
    | inl gone ↦ rw (e, reconcile, gone) (tt, r)
    | inr broken ↦ rw (e, reconcile, broken) (tt, r)
  ]
  fetched-Sound k w (ok v) e sees r = elim (Bool-cases (is_some v.deletion_timestamp)) [
    | inl deleted ↦
        rw (e, reconcile)
          (rw deleted (
            (handle_deletion-Calm api namespace k v).at (api.get_restore k w).1 tt,
            subst Ready
                (sym (
                  (handle_deletion-Keeps api stored server namespace _ k v).at
                    (api.get_restore k w).1 refl))
                r,
          ))
    | inr live ↦
        rw (e, reconcile)
          (rw live (handle_live-Sound v _ (sees v e ∙ sym (server.get_restore k w)) r))
  ]

  reconcile-Sound :
      (k : Key) (w : World)
      → Sees api stored k w
      → Ready (stored w)
      → Sound (reconcile api namespace k) w
  reconcile-Sound k w sees r =
      fetched-Sound k w (api.get_restore k w).0 refl sees
        (subst Ready (sym (server.get_restore k w)) r)

  Step-Ready :
      (w w' : World) → Step api stored namespace w w' → Ready (stored w) → Ready (stored w')
  Step-Ready _ _ (reconciled k w sees) r = (reconcile-Sound k w sees r).1
  Step-Ready _ _ (outside w w' e) r = subst Ready (sym e) r

  Runs-Ready :
      (w w' : World) → Runs api stored namespace w w' → Ready (stored w) → Ready (stored w')
  Runs-Ready _ _ (here w) r = r
  Runs-Ready w w' (after {m = m} s rest) r = Runs-Ready m w' rest (Step-Ready w m s r)

  -- With a server that keeps IsServer, after every sequence of reconciliations, each of which reads
  -- the status as it is stored, that starts with a stored phase other than Hotplugging,
  -- WaitingForAttachment, SSHConnecting and Restoring, or with a stored mount path, no reconciliation
  -- that reads the status as it is stored panics for want of a mount path, whatever the calls answer.
  -- (Names are not empty and the template of a machine is set.)
  pub Runs-NoPanic :
      (k : Key) (w w' : World)
      → Runs api stored namespace w w'
      → Ready (stored w)
      → Sees api stored k w'
      → NoPanic (reconcile api namespace k w').0
  Runs-NoPanic k w w' run r sees = (reconcile-Sound k w' sees (Runs-Ready w w' run r)).0
