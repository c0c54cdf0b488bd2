-- ===== src/Controller/Persistence/Start.antt =====
-- The common steps of the handlers, on an object that was read in phase `p` while `p0` is stored.
use vm_file_restore_operator.Base.{◌≡◌, ◌⊎◌, inl, inr, refl, sym, subst, String, Bool, true}
use vm_file_restore_operator.Errors.{Error}
use vm_file_restore_operator.Types.{FileRestore, Status, Time, RestorePhase, failed}
use vm_file_restore_operator.Monad.Rules.{
  Keeps, ends_rules, Ends-seq, Ends-bind, Ends-on_result, Keeps-pure,
}
use vm_file_restore_operator.Api.{Api}
use vm_file_restore_operator.Server.{IsServer, Merged}
use vm_file_restore_operator.Controller.State.{St, patch_status, set_status}
use vm_file_restore_operator.Controller.Graph.{◌⟶◌, Moves, give_up, may_fail}
use vm_file_restore_operator.Controller.Lifted.{cleanup-Kept}
use vm_file_restore_operator.Controller.Both.{
  Holds, set_status-Keeps, now-Keeps-Holds, record_event-Keeps, Ends-the_restore, the_restore-Keeps,
  patch_status-Keeps,
}
use vm_file_restore_operator.Controller.Steps.{
  stamp, count_retry, transition_phase, increment_retry_and_requeue, fail_restore, RetryType,
  attachment, ssh,
}

-- The phase is the stored one, the one that was read, or one edge further than that.
abbrev pub Near : RestorePhase → RestorePhase → Status → Type 0
Near p0 p st = (st.phase ≡ p0) ⊎ Moves p st.phase

module _ (p0 p : RestorePhase) where
  -- A merge patch leaves the phase that was sent or the one that was stored.
  merge-Near : (b m s r : Status) → Merged b m s r → Near p0 p m → Near p0 p s → Near p0 p r
  merge-Near b m s r merged hm hs = elim merged.phase [
    | inl sent ↦ subst (λ x. (x ≡ p0) ⊎ Moves p x) (sym sent) hm
    | inr kept ↦ subst (λ x. (x ≡ p0) ⊎ Moves p x) (sym kept.1) hs
  ]

  -- An assignment of a phase to which an edge leads from `p`.
  pub moved : (q : RestorePhase) → p ⟶ q → (st : Status) → st.phase ≡ q → Near p0 p st
  moved q edge st e = inr (inr (subst (λ x. p ⟶ x) (sym e) edge))

  retry-Near : (kind : RetryType) (st : Status) → Near p0 p st → Near p0 p (count_retry kind st)
  retry-Near attachment st h = h
  retry-Near ssh st h = h

  module _ (api : Api) (stored : api.World → Status) (server : IsServer api stored) where
    open api use {World}

    -- So it is in memory and on the server.
    abbrev pub At : St World → Type 0
    At = Holds api stored server (Near p0 p) (Near p0 p)

    stamp-Keeps :
        (due : Bool) (f : Time → Status → Status)
        → ((t : Time) (st : Status) → Near p0 p st → Near p0 p (f t st))
        → Keeps At (stamp api due f)
    unfolding stamp
    stamp-Keeps due f k = search (
      ends_rules,
      now-Keeps-Holds api stored server (Near p0 p) (Near p0 p),
      set_status-Keeps api stored server (Near p0 p) (Near p0 p),
      k,
    )

    -- The patch, whatever it is based on and whether it is accepted.
    pub patch-Keeps : (base : FileRestore) → Keeps At (patch_status api base)
    patch-Keeps base =
        patch_status-Keeps api stored server (Near p0 p) base (merge-Near base.status)

    pub enter-Keeps :
        (q : RestorePhase) (f : Status → Status)
        → p ⟶ q
        → ((st : Status) → (f st).phase ≡ q)
        → Keeps At (set_status f)
    enter-Keeps q f edge k =
        set_status-Keeps api stored server (Near p0 p) (Near p0 p) f
          (λ st _. moved q edge (f st) (k st))

    pub transition_phase-Keeps :
        (q : RestorePhase) (message : String) → p ⟶ q → Keeps At (transition_phase api q message)
    unfolding transition_phase
    transition_phase-Keeps q message edge =
        Ends-the_restore api stored server (Near p0 p) (Near p0 p) _ λ base at.
          Ends-seq _ _ (enter-Keeps q _ edge (λ st. refl)) (
            Ends-seq _ _ (stamp-Keeps _ _ (λ t st e. e)) (
              Ends-seq _ _ (stamp-Keeps _ _ (λ t st e. e)) (
                Ends-bind _ _ (patch-Keeps base) λ answer.
                  search
                    (ends_rules, record_event-Keeps api stored server (Near p0 p) (Near p0 p)))))

    pub fail_restore-Keeps :
        (namespace : String) (e : Error) (detail : String)
        → may_fail p ≡ true
        → Keeps At (fail_restore api namespace e detail)
    unfolding fail_restore
    fail_restore-Keeps namespace e detail allowed =
        Ends-the_restore api stored server (Near p0 p) (Near p0 p) _ λ base at.
          Ends-bind _ _ (now-Keeps-Holds api stored server (Near p0 p) (Near p0 p)) λ t.
            Ends-seq _ _ (enter-Keeps failed _ (give_up allowed) (λ st. refl)) (
              Ends-bind _ _ (now-Keeps-Holds api stored server (Near p0 p) (Near p0 p)) λ t'.
                Ends-seq _ _
                  (set_status-Keeps api stored server (Near p0 p) (Near p0 p) _ (λ st x. x))
                  (Ends-bind _ _ (patch-Keeps base) λ answer.
                    search
                      (
                        ends_rules,
                        record_event-Keeps api stored server (Near p0 p) (Near p0 p),
                        the_restore-Keeps api stored server,
                        cleanup-Kept api stored server (Near p0 p) (Near p0 p),
                      )
                      depth 9))

    pub increment_retry-Keeps :
        (kind : RetryType) (delay : Time) → Keeps At (increment_retry_and_requeue api kind delay)
    unfolding increment_retry_and_requeue
    increment_retry-Keeps kind delay =
        Ends-the_restore api stored server (Near p0 p) (Near p0 p) _ λ base at.
          Ends-seq _ _
            (set_status-Keeps api stored server (Near p0 p) (Near p0 p) _ (retry-Near kind))
            (Ends-bind _ _ (patch-Keeps base) λ answer.
              Ends-on_result answer _ _ (λ e. Keeps-pure _)
                (λ v.
                  Ends-the_restore api stored server (Near p0 p) (Near p0 p) _ λ o h. Keeps-pure _))
