-- ===== src/Controller/Persistence/Reconciling.antt =====
-- A whole reconciliation, on the stored phase.
use vm_file_restore_operator.Base.{
  ◌≡◌, ◌⊎◌, inl, inr, refl, sym, subst, ◌∙◌, ap, String, ℕ, zero, suc, false, Bool-cases, is_some,
}
use vm_file_restore_operator.Errors.{Error, Result, ok, err}
use vm_file_restore_operator.Types.{
  Key, FileRestore, Status, RestorePhase, unset, new, init, hotplugging, waiting_for_attachment,
  ssh_connecting, restoring, volume_ready, cleanup, succeeded, failed, other,
}
use vm_file_restore_operator.Monad.{Action, pure, ◌>>=◌, on_option}
use vm_file_restore_operator.Monad.Rules.{Keeps, ends_rules, Keeps-pure}
use vm_file_restore_operator.Api.{Api}
use vm_file_restore_operator.Server.{IsServer, Sees}
use vm_file_restore_operator.Server.Quiet.{
  Same, get_restore-Keeps, update_restore-Keeps, cleanup-Keeps,
}
use vm_file_restore_operator.Controller.State.{St, Reply}
use vm_file_restore_operator.Controller.Graph.{Moves, accept_unset, accept_new, accept_init}
use vm_file_restore_operator.Controller.Steps.{is_terminal}
use vm_file_restore_operator.Controller.Finish.{handle_volume_ready_phase}
use vm_file_restore_operator.Controller.Reconcile.{
  run_phase_handler, remove_again, handle_deletion, handle_live, reconcile, has_finalizer,
}
use vm_file_restore_operator.Controller.Persistence.Start.{At, fail_restore-Keeps}
use vm_file_restore_operator.Controller.Persistence.Handlers.{
  hotplugging_phase-Keeps, init_phase-Keeps, waiting_phase-Keeps, ssh_connecting_phase-Keeps,
  cleanup_phase-Keeps, restoring_phase-Keeps,
}

module _ (api : Api) (stored : api.World → Status) (server : IsServer api stored)
    (namespace : String) where
  open api use {World}

  pub run_phase_handler-Keeps :
      (p0 p : RestorePhase)
      → is_terminal p ≡ false
      → Keeps (At p0 p api stored server) (run_phase_handler api namespace p)
  unfolding run_phase_handler on_option handle_volume_ready_phase
  run_phase_handler-Keeps p0 unset h =
      init_phase-Keeps p0 api stored server namespace unset accept_unset refl
  run_phase_handler-Keeps p0 new h =
      init_phase-Keeps p0 api stored server namespace new accept_new refl
  run_phase_handler-Keeps p0 init h =
      init_phase-Keeps p0 api stored server namespace init accept_init refl
  run_phase_handler-Keeps p0 hotplugging h = hotplugging_phase-Keeps p0 api stored server namespace
  run_phase_handler-Keeps p0 waiting_for_attachment h =
      waiting_phase-Keeps p0 api stored server namespace
  run_phase_handler-Keeps p0 ssh_connecting h =
      ssh_connecting_phase-Keeps p0 api stored server namespace
  run_phase_handler-Keeps p0 restoring h = restoring_phase-Keeps p0 api stored server namespace
  run_phase_handler-Keeps p0 volume_ready h = Keeps-pure _
  run_phase_handler-Keeps p0 cleanup h = cleanup_phase-Keeps p0 api stored server namespace
  run_phase_handler-Keeps p0 succeeded h = cc
  run_phase_handler-Keeps p0 failed h = cc
  run_phase_handler-Keeps p0 (other s) h =
      fail_restore-Keeps p0 (other s) api stored server namespace _ _ refl

  module _ (st : Status) where
    remove_again-Keeps :
        (n : ℕ) (k : Key) (e : Error)
        → Keeps (Same api stored server st) (remove_again api namespace n k e)
    unfolding remove_again
    remove_again-Keeps zero k e = search ends_rules
    remove_again-Keeps (suc n) k e =
        let again : (x : Error)
            → Keeps (Same api stored server st) (remove_again api namespace n k x) =
          remove_again-Keeps n k in
        search
          (
            ends_rules,
            get_restore-Keeps api stored server st,
            update_restore-Keeps api stored server st,
            again,
          )
          depth 8

    pub handle_deletion-Keeps :
        (k : Key) (v : FileRestore)
        → Keeps (Same api stored server st) (handle_deletion api namespace k v)
    unfolding handle_deletion
    handle_deletion-Keeps k v =
        search
          (
            ends_rules,
            cleanup-Keeps api stored server st,
            update_restore-Keeps api stored server st,
            remove_again-Keeps,
          )
          depth 10

  pub add_finalizer-Keeps :
      (v : FileRestore) (st : Status)
      → has_finalizer v ≡ false
      → Keeps (Same api stored server st) (handle_live api namespace v)
  unfolding handle_live
  add_finalizer-Keeps v st h = rw h (search (ends_rules, update_restore-Keeps api stored server st))

  -- The stored phase stays, or it is the phase that was read or one edge further than that.
  module _ (k : Key) (w : World) where
    abbrev Reached : World → Type 0
    Reached w' =
        ((stored w').phase ≡ (stored w).phase)
        ⊎ ((v : FileRestore) × ((api.get_restore k w).0 ≡ ok v)
            × Moves v.status.phase (stored w').phase)

    -- Where the status is not written, the phase stays.
    Reached-Same :
        (m : Action World Reply)
        → ((st : Status) → Keeps (Same api stored server st) m)
        → Reached (m (api.get_restore k w).1).1
    Reached-Same m keeps = inl (
        ap (λ st. st.phase)
          ((keeps (stored (api.get_restore k w).1)).at (api.get_restore k w).1 refl)
        ∙ ap (λ st. st.phase) (server.get_restore k w))

    run_phase_handler-Reached :
        (v : FileRestore)
        → (api.get_restore k w).0 ≡ ok v
        → is_terminal v.status.phase ≡ false
        → Reached
            (run_phase_handler api namespace v.status.phase
              (record { world = (api.get_restore k w).1; restore = v })).1.world
    run_phase_handler-Reached v e going =
        let s : St World = record { world = (api.get_restore k w).1; restore = v } in
        let near =
          ((run_phase_handler-Keeps (stored w).phase v.status.phase going).at s
            (inr (inl refl), inl (ap (λ st. st.phase) (server.get_restore k w)))).1 in
        elim near [ inl same ↦ inl same | inr moves ↦ inr (v, e, moves) ]

    handle_live-Reached :
        (v : FileRestore)
        → (api.get_restore k w).0 ≡ ok v
        → Reached (handle_live api namespace v (api.get_restore k w).1).1
    unfolding handle_live pure
    handle_live-Reached v e = elim (Bool-cases (has_finalizer v)) [
      | inr absent ↦ Reached-Same _ (λ st. add_finalizer-Keeps v st absent)
      | inl present ↦ elim (Bool-cases (is_terminal v.status.phase)) [
        | inl final ↦ rw (present, final) (inl (ap (λ st. st.phase) (server.get_restore k w)))
        | inr going ↦ rw (present, going) (run_phase_handler-Reached v e going)
      ]
    ]

    fetched-Reached :
        (found : Result FileRestore)
        → (api.get_restore k w).0 ≡ found
        → Reached (reconcile api namespace k w).1
    unfolding reconcile ◌>>=◌
    fetched-Reached (err x) e =
        rw (e, reconcile) (inl (ap (λ st. st.phase) (server.get_restore k w)))
    fetched-Reached (ok v) e = elim (Bool-cases (is_some v.deletion_timestamp)) [
      | inl deleted ↦
          let stays : Reached (handle_deletion api namespace k v (api.get_restore k w).1).1 =
            Reached-Same _ (λ st. handle_deletion-Keeps st k v) in
          let same : (reconcile api namespace k w).1
              ≡ (handle_deletion api namespace k v (api.get_restore k w).1).1 =
            rw (e, reconcile) (rw deleted refl) in
          subst Reached (sym same) stays
      | inr live ↦
          let reached : Reached (handle_live api namespace v (api.get_restore k w).1).1 =
            handle_live-Reached v e in
          let same : (reconcile api namespace k w).1
              ≡ (handle_live api namespace v (api.get_restore k w).1).1 =
            rw (e, reconcile) (rw live refl) in
          subst Reached (sym same) reached
    ]

  -- With a server that keeps `IsServer`, one reconciliation, whatever the calls answer and however old
  -- the object is that it reads, leaves the stored phase alone, or stores the phase that it has read
  -- or one that an edge of the diagram leads to from there.
  pub reconcile-Moves :
      (k : Key) (w : World)
      → ((stored (reconcile api namespace k w).1).phase ≡ (stored w).phase)
        ⊎ ((v : FileRestore) × ((api.get_restore k w).0 ≡ ok v)
            × Moves v.status.phase (stored (reconcile api namespace k w).1).phase)
  reconcile-Moves k w = fetched-Reached k w (api.get_restore k w).0 refl

  -- Where the status that is read is the stored one.
  pub reconcile-Moves_seen :
      (k : Key) (w : World)
      → Sees api stored k w
      → Moves (stored w).phase (stored (reconcile api namespace k w).1).phase
  reconcile-Moves_seen k w sees = elim (reconcile-Moves k w) [
    | inl same ↦ inl same
    | inr (v, e, moves) ↦
        subst (λ x. Moves x (stored (reconcile api namespace k w).1).phase)
          (ap (λ st. st.phase) (sees v e)) moves
  ]
