-- ===== src/Controller/Stored.antt =====
-- When a handler's answer says that a phase was stored.
use vm_file_restore_operator.Base.{◌≡◌, ◌≢◌, refl, sym, subst, ◌∙◌, inl, inr, String, Bool}
use vm_file_restore_operator.Errors.{Error, Result, ok, err}
use vm_file_restore_operator.Types.{FileRestore, Status, Time, RestorePhase, failed}
use vm_file_restore_operator.Monad.{Action, pure, ◌>>=◌, on_result}
use vm_file_restore_operator.Monad.Rules.{
  Ends, Keeps, ends_rules, Ends-bind, Ends-seq, Ends-then, Ends-given,
}
use vm_file_restore_operator.Api.{Api}
use vm_file_restore_operator.Server.{IsServer}
use vm_file_restore_operator.Controller.State.{
  St, Reply, stop, requeue, fail, the_restore, patch_status,
}
use vm_file_restore_operator.Controller.Cleaning.{Ends-cleanup}
use vm_file_restore_operator.Controller.Lifted.{cleanup-Kept}
use vm_file_restore_operator.Controller.Both.{
  Holds, set_status-Keeps, now-Keeps-Holds, record_event-Keeps, Ends-the_restore, set_status-Ends,
}
use vm_file_restore_operator.Controller.Steps.{stamp, transition_phase, fail_restore}

err≢ok : (x : Error) → ¬ (err x ≡ ok (tt {0}))
err≢ok x e = cc

fail≢requeue : (x : Error) → fail x ≢ requeue
fail≢requeue x e = cc

fail≢stop : (x : Error) → fail x ≢ stop
fail≢stop x e = cc

module _ (api : Api) (stored : api.World → Status) (server : IsServer api stored) where
  open api use {World}

  abbrev Any : Status → Type 0
  Any st = Unit {0}

  module _ (q : RestorePhase) where
    abbrev In : Status → Type 0
    In st = st.phase ≡ q

    -- The answer `r` of the patch says that the phase is stored.
    abbrev Sent : Result (Unit {0}) → Status → Type 0
    Sent r st = (r ≡ ok tt) → In st

    abbrev Accepted : Result (Unit {0}) → St World → Type 0
    Accepted r s = Holds api stored server Any (Sent r) s

    patch_accepted :
        (base : FileRestore) (s : St World) (answer : Result FileRestore)
        → (api.patch_status base s.restore s.world).0 ≡ answer
        → base.status.phase ≢ q
        → In s.restore.status
        → (patch_status api base s).0 ≡ ok tt
        → In (stored (patch_status api base s).1.world)
    unfolding patch_status the_restore ◌>>=◌
    patch_accepted base s (ok v) e left h r =
        rw (e, patch_status)
          (subst In (server.patch_stored base s.restore s.world v e)
            (elim (server.patch_merged base s.restore s.world v e).phase [
              | inl sent ↦ sent ∙ h
              | inr unsent ↦ absurd (left (sym unsent.0 ∙ h))
            ]))
    patch_accepted base s (err x) e left h r =
        absurd (let c : err x ≡ ok tt = rw (e, patch_status) at r in err≢ok x c)

    patch-Accepted :
        (base : FileRestore)
        → base.status.phase ≢ q
        → Ends (Holds api stored server In Any) Accepted (patch_status api base)
    patch-Accepted base left = record {
      at = λ s h.
          (tt, patch_accepted base s (api.patch_status base s.restore s.world).0 refl left h.0);
    }

    -- The reply `r` says that the phase is stored.
    abbrev Says : Reply → Reply → St World → Type 0
    Says r reply s = reply ≡ r → In (stored s.world)

    pure-Says : (r : Reply) → Ends (Accepted (ok tt)) (Says r) (pure r)
    unfolding pure
    pure-Says r = record { at = λ s h e. h.1 refl }

    fail-Says :
        (r : Reply) (x : Error) → fail x ≢ r → Ends (Accepted (err x)) (Says r) (pure (fail x))
    unfolding pure
    fail-Says r x n = record { at = λ s h e. absurd (n e) }

    stamp-Keeps :
        (due : Bool) (f : Time → Status → Status)
        → ((t : Time) (st : Status) → In st → In (f t st))
        → Keeps (Holds api stored server In Any) (stamp api due f)
    unfolding stamp
    stamp-Keeps due f k = search (
      ends_rules,
      now-Keeps-Holds api stored server,
      set_status-Keeps api stored server In Any,
      k,
    )

    -- What follows a patch whose failure is returned.
    after-Says :
        (r : Reply)
        → ((x : Error) → fail x ≢ r)
        → (done : Unit {0} → Action (St World) Reply) → Ends (Accepted (ok tt)) (Says r) (done tt)
        → (a : Result (Unit {0}))
        → Ends (Accepted a) (Says r) (on_result a (λ e. pure (fail e)) done)
    unfolding on_result
    after-Says r n done e (ok x) = e
    after-Says r n done e (err x) = fail-Says r x (n x)

    -- A transition that answers with a requeue has stored the new phase.
    pub transition_phase-Says :
        (message : String)
        → Ends
            (Holds api stored server (λ st. st.phase ≢ q) Any)
            (Says requeue)
            (transition_phase api q message)
    unfolding transition_phase
    transition_phase-Says message =
        Ends-the_restore api stored server (λ st. st.phase ≢ q) Any _
          λ base left.
            Ends-then _ _
              (set_status-Ends api stored server In Any (λ st. st.phase ≢ q) _ (λ st _. refl))
              (Ends-seq _ _ (stamp-Keeps _ _ (λ t st h. h)) (
                Ends-seq _ _ (stamp-Keeps _ _ (λ t st h. h)) (
                  Ends-given _ _ (patch-Accepted base left) (
                    after-Says requeue fail≢requeue _ (
                      search (
                        ends_rules,
                        record_event-Keeps api stored server Any (Sent (ok tt)),
                        pure-Says,
                      ))))))

  -- Giving up that answers without an error has stored the phase `Failed`.
  pub fail_restore-Says :
      (namespace : String) (e : Error) (detail : String)
      → Ends
          (Holds api stored server (λ st. st.phase ≢ failed) Any)
          (Says failed stop)
          (fail_restore api namespace e detail)
  unfolding fail_restore
  fail_restore-Says namespace e detail =
      Ends-the_restore api stored server (λ st. st.phase ≢ failed) Any _
        λ base left.
          Ends-bind _ _ (now-Keeps-Holds api stored server (λ st. st.phase ≢ failed) Any) λ t.
            Ends-then _ _
              (set_status-Ends api stored server (In failed) Any (λ st. st.phase ≢ failed) _
                (λ st _. refl))
              (Ends-bind _ _ (now-Keeps-Holds api stored server (In failed) Any) λ t'.
                Ends-seq _ _ (set_status-Keeps api stored server (In failed) Any _ (λ st h. h)) (
                  Ends-given _ _ (patch-Accepted failed base left) (
                    after-Says failed stop fail≢stop _ (
                      Ends-seq _ _
                        (record_event-Keeps api stored server Any (Sent failed (ok tt)) _ _ _)
                        (Ends-the_restore api stored server Any (Sent failed (ok tt)) _ λ v sent.
                          Ends-cleanup api namespace v
                            (cleanup-Kept api stored server Any (Sent failed (ok tt)) namespace v)
                            (pure-Says failed stop))))))

  -- With a server that keeps `IsServer`, where the restore is not in the phase yet, a transition that answers with a requeue has stored
  -- the new phase, whatever the other calls answered.
  pub transition_phase-Stored :
      (s : St World) (q : RestorePhase) (message : String)
      → s.restore.status.phase ≢ q
      → (transition_phase api q message s).0 ≡ requeue
      → (stored (transition_phase api q message s).1.world).phase ≡ q
  transition_phase-Stored s q message left = (transition_phase-Says q message).at s (left, tt)

  -- With a server that keeps `IsServer`, where the restore is not in `Failed` yet, giving up without an error has stored `Failed`,
  -- whatever the other calls and the cleanup answered.
  pub fail_restore-Stored :
      (s : St World) (namespace : String) (e : Error) (detail : String)
      → s.restore.status.phase ≢ failed
      → (fail_restore api namespace e detail s).0 ≡ stop
      → (stored (fail_restore api namespace e detail s).1.world).phase ≡ failed
  fail_restore-Stored s namespace e detail left =
      (fail_restore-Says namespace e detail).at s (left, tt)
