-- ===== src/Controller/Bounds/Reconciling.antt =====
-- A whole reconciliation, on the stored retry counters.
use vm_file_restore_operator.Base.{
  ◌≡◌, ◌≤◌, ◌-◌, inl, inr, refl, sym, subst, ◌∙◌, String, ℕ, false, Bool-cases, is_some, leb, arith,
}
use vm_file_restore_operator.Errors.{Result, ok, err}
use vm_file_restore_operator.Types.{
  Key, FileRestore, Status, RestorePhase, unset, new, init, hotplugging, waiting_for_attachment,
  ssh_connecting, restoring, volume_ready, cleanup, succeeded, failed, other,
}
use vm_file_restore_operator.Monad.{Action, pure, ◌>>=◌, on_option}
use vm_file_restore_operator.Api.{Api}
use vm_file_restore_operator.Server.{IsServer, Sees}
use vm_file_restore_operator.Controller.State.{St, Reply, the_restore}
use vm_file_restore_operator.Controller.Steps.{is_terminal}
use vm_file_restore_operator.Controller.Attachment.{handle_waiting_for_attachment_phase}
use vm_file_restore_operator.Controller.Restoring.{handle_ssh_connecting_phase}
use vm_file_restore_operator.Controller.Finish.{handle_volume_ready_phase}
use vm_file_restore_operator.Controller.Reconcile.{
  run_phase_handler, handle_live, reconcile, has_finalizer,
}
use vm_file_restore_operator.Controller.Persistence.Reconciling.{
  handle_deletion-Keeps, add_finalizer-Keeps,
}
use vm_file_restore_operator.Controller.Bounds.Steps.{InRange, At, Ends-pure, fail_restore-Ends}
use vm_file_restore_operator.Controller.Bounds.Handlers.{
  hotplugging-Ends, init-Ends, attachment_check-Ends, ssh_check-Ends, cleanup-Ends, restoring-Ends,
}

below : (a n : ℕ) → leb a n ≡ false → n ≤ a - 1
below a n h = ground arith

module _ (api : Api) (stored : api.World → Status) (server : IsServer api stored)
    (namespace : String) where
  open api use {World}

  -- The handler starts from the object as it is stored.
  abbrev Fresh : St World → Type 0
  Fresh s = (s.restore.status ≡ stored s.world) × InRange 60 24 (stored s.world)

  fresh : (s : St World) → Fresh s → At api stored server 60 24 (omega arith) (omega arith) s
  fresh s (e, r) = (rw e r, r)

  abbrev Stays : Action (St World) Reply → St World → Type 0
  Stays m s = InRange 60 24 (stored (m s).1.world)

  waiting-Stays :
      (s : St World) → Fresh s → Stays (handle_waiting_for_attachment_phase api namespace) s
  unfolding handle_waiting_for_attachment_phase ◌>>=◌ the_restore
  waiting-Stays s (e, r) = elim (Bool-cases (leb 60 s.restore.status.attachment_retries)) [
    | inl late ↦
        rw late
          ((fail_restore-Ends api stored server 60 24 (omega arith) (omega arith) namespace _ _).at
            s (fresh s (e, r))).1
    | inr early ↦
        let k : InRange 59 24 s.restore.status = record {
          attachment_le = below 60 _ early;
          ssh_le = (fresh s (e, r)).0.ssh_le;
        } in
        rw early
          ((attachment_check-Ends api stored server namespace s.restore).at s
            (k, subst (InRange 59 24) e k)).1
  ]

  ssh_connecting-Stays :
      (s : St World) → Fresh s → Stays (handle_ssh_connecting_phase api namespace) s
  unfolding handle_ssh_connecting_phase ◌>>=◌ the_restore
  ssh_connecting-Stays s (e, r) = elim (Bool-cases (leb 24 s.restore.status.ssh_retries)) [
    | inl late ↦
        rw late
          ((fail_restore-Ends api stored server 60 24 (omega arith) (omega arith) namespace _ _).at
            s (fresh s (e, r))).1
    | inr early ↦
        let k : InRange 60 23 s.restore.status = record {
          attachment_le = (fresh s (e, r)).0.attachment_le;
          ssh_le = below 24 _ early;
        } in
        rw early
          ((ssh_check-Ends api stored server namespace s.restore).at s
            (k, subst (InRange 60 23) e k)).1
  ]

  run_phase_handler-Stays :
      (p : RestorePhase)
      → is_terminal p ≡ false
      → (s : St World) → Fresh s
      → Stays (run_phase_handler api namespace p) s
  unfolding run_phase_handler on_option handle_volume_ready_phase
  run_phase_handler-Stays unset h s f = ((init-Ends api stored server namespace).at s (fresh s f)).1
  run_phase_handler-Stays new h s f = ((init-Ends api stored server namespace).at s (fresh s f)).1
  run_phase_handler-Stays init h s f = ((init-Ends api stored server namespace).at s (fresh s f)).1
  run_phase_handler-Stays hotplugging h s f =
      ((hotplugging-Ends api stored server namespace).at s (fresh s f)).1
  run_phase_handler-Stays waiting_for_attachment h s f = waiting-Stays s f
  run_phase_handler-Stays ssh_connecting h s f = ssh_connecting-Stays s f
  run_phase_handler-Stays restoring h s f =
      ((restoring-Ends api stored server namespace).at s (fresh s f)).1
  run_phase_handler-Stays volume_ready h s f =
      ((Ends-pure api stored server 60 24 (omega arith) (omega arith) _).at s (fresh s f)).1
  run_phase_handler-Stays cleanup h s f =
      ((cleanup-Ends api stored server namespace).at s (fresh s f)).1
  run_phase_handler-Stays succeeded h s f = cc
  run_phase_handler-Stays failed h s f = cc
  run_phase_handler-Stays (other t) h s f =
      ((fail_restore-Ends api stored server 60 24 (omega arith) (omega arith) namespace _ _).at s
        (fresh s f)).1

  handle_live-InRange :
      (v : FileRestore) (w : World)
      → v.status ≡ stored w
      → InRange 60 24 (stored w)
      → InRange 60 24 (stored (handle_live api namespace v w).1)
  unfolding handle_live pure
  handle_live-InRange v w e r = elim (Bool-cases (has_finalizer v)) [
    | inr absent ↦
        subst (InRange 60 24)
          (sym ((add_finalizer-Keeps api stored server namespace v (stored w) absent).at w refl)) r
    | inl present ↦ elim (Bool-cases (is_terminal v.status.phase)) [
      | inl final ↦ rw (present, final) r
      | inr going ↦
          rw (present, going)
            (run_phase_handler-Stays v.status.phase going (record { world = w; restore = v })
              (e, r))
    ]
  ]

  fetched-InRange :
      (k : Key) (w : World) (found : Result FileRestore)
      → (api.get_restore k w).0 ≡ found
      → Sees api stored k w
      → InRange 60 24 (stored (api.get_restore k w).1)
      → InRange 60 24 (stored (reconcile api namespace k w).1)
  unfolding reconcile ◌>>=◌
  fetched-InRange k w (err x) e sees r = rw (e, reconcile) r
  fetched-InRange k w (ok v) e sees r = elim (Bool-cases (is_some v.deletion_timestamp)) [
    | inl deleted ↦
        rw (e, reconcile)
          (rw deleted (
            subst (InRange 60 24)
              (sym (
                (handle_deletion-Keeps api stored server namespace _ k v).at (api.get_restore k w).1
                  refl))
              r))
    | inr live ↦
        rw (e, reconcile)
          (rw live (handle_live-InRange v _ (sees v e ∙ sym (server.get_restore k w)) r))
  ]

  -- A reconciliation keeps the two stored retry counters at most at their limits, 60 and 24,
  -- whatever the calls answer, where it reads the status as it is stored.
  pub reconcile-InRange :
      (k : Key) (w : World)
      → Sees api stored k w
      → InRange 60 24 (stored w)
      → InRange 60 24 (stored (reconcile api namespace k w).1)
  reconcile-InRange k w sees r =
      fetched-InRange k w (api.get_restore k w).0 refl sees
        (subst (InRange 60 24) (sym (server.get_restore k w)) r)
