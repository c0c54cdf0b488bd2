-- ===== src/Controller/Bounds/Steps.antt =====
-- The common steps of the handlers, from counters of at most `a` and `b`.
use vm_file_restore_operator.Base.{◌≤◌, ℕ, inl, inr, String, Bool, arith}
use native.Mathlib.Nat.{le_trans}
use vm_file_restore_operator.Errors.{Error}
use vm_file_restore_operator.Types.{FileRestore, Status, Time, RestorePhase}
use vm_file_restore_operator.Monad.{pure}
use vm_file_restore_operator.Monad.Rules.{
  Ends, Keeps, ends_rules, Ends-then, Ends-step, Ends-seq, Ends-bind,
}
use vm_file_restore_operator.Api.{Api}
use vm_file_restore_operator.Server.{IsServer, Merged}
use vm_file_restore_operator.Controller.State.{St, set_status, patch_status}
use vm_file_restore_operator.Controller.Lifted.{cleanup-Kept}
use vm_file_restore_operator.Controller.Both.{
  Holds, set_status-Keeps, now-Keeps-Holds, record_event-Keeps, Ends-the_restore, the_restore-Keeps,
  set_status-Ends, patch_status-Ends, patch_status-Keeps,
}
use vm_file_restore_operator.Controller.Steps.{
  stamp, count_retry, transition_phase, increment_retry_and_requeue, fail_restore, RetryType,
  attachment, ssh,
}

pub record InRange (a b : ℕ) (st : Status) : Type 0 where
  pub attachment_le : st.attachment_retries ≤ a
  pub ssh_le : st.ssh_retries ≤ b

module _ (api : Api) (stored : api.World → Status) (server : IsServer api stored) where
  open api use {World}

  -- What is merged from counters in range is in range.
  merge-InRange :
      (a b : ℕ) (x m s r : Status) → Merged x m s r → InRange a b m → InRange a b s → InRange a b r
  merge-InRange a b x m s r merged hm hs = record {
    attachment_le = elim merged.attachment_retries [
      | inl sent ↦ rw sent hm.attachment_le
      | inr kept ↦ rw kept.1 hs.attachment_le
    ];
    ssh_le = elim merged.ssh_retries [
      | inl sent ↦ rw sent hm.ssh_le
      | inr kept ↦ rw kept.1 hs.ssh_le
    ];
  }

  module _ (a b : ℕ) (ha : a ≤ 60) (hb : b ≤ 24) where
    abbrev pub At : St World → Type 0
    At = Holds api stored server (InRange a b) (InRange a b)

    abbrev pub To : St World → Type 0
    To = Holds api stored server (λ _. Unit {0}) (InRange 60 24)

    widen : (st : Status) → InRange a b st → InRange 60 24 st
    widen st h = omega arith

    pub Ends-pure : {B : Type 0} (x : B) → Ends At (λ _. To) (pure x)
    unfolding pure
    Ends-pure x = record { at = λ s h. (tt, widen _ h.1) }

    pub patch-Keeps : (base : FileRestore) → Keeps At (patch_status api base)
    patch-Keeps base =
        patch_status-Keeps api stored server (InRange a b) base
          λ m s r merged hm hs. merge-InRange a b base.status m s r merged hm hs

    -- An assignment that raises no counter.
    pub assign-Keeps :
        (f : Status → Status)
        → ((st : Status) → (f st).attachment_retries ≤ st.attachment_retries)
        → ((st : Status) → (f st).ssh_retries ≤ st.ssh_retries)
        → Keeps At (set_status f)
    assign-Keeps f ka ks = set_status-Keeps api stored server (InRange a b) (InRange a b) f λ st h.
        record {
          attachment_le = le_trans (ka st) h.attachment_le;
          ssh_le = le_trans (ks st) h.ssh_le;
        }

    -- After the patch the stored counters are in the widest range.
    pub patch-Ends : (base : FileRestore) → Ends At (λ _. To) (patch_status api base)
    patch-Ends base =
        patch_status-Ends api stored server (InRange a b) (InRange a b) (InRange 60 24) base
          (λ m s r merged hm hs. widen r (merge-InRange a b base.status m s r merged hm hs)) widen

    stamp-Keeps :
        (due : Bool) (f : Time → Status → Status)
        → ((t : Time) (st : Status) → InRange a b st → InRange a b (f t st))
        → Keeps At (stamp api due f)
    unfolding stamp
    stamp-Keeps due f k = search (
      ends_rules,
      now-Keeps-Holds api stored server,
      set_status-Keeps api stored server (InRange a b) (InRange a b),
      k,
    )

    pub transition_phase-Ends :
        (q : RestorePhase) (message : String) → Ends At (λ _. To) (transition_phase api q message)
    unfolding transition_phase
    transition_phase-Ends q message =
        Ends-the_restore api stored server (InRange a b) (InRange a b) _ λ base at.
          Ends-seq _ _
            (set_status-Keeps api stored server (InRange a b) (InRange a b) _
              (λ st h. record { attachment_le = h.attachment_le; ssh_le = h.ssh_le }))
            (Ends-seq _ _
              (stamp-Keeps _ _
                (λ t st h. record { attachment_le = h.attachment_le; ssh_le = h.ssh_le }))
              (Ends-seq _ _
                (stamp-Keeps _ _
                  (λ t st h. record { attachment_le = h.attachment_le; ssh_le = h.ssh_le }))
                (Ends-step _ _ (patch-Ends base) λ answer. search (
                  ends_rules,
                  record_event-Keeps api stored server (λ _. Unit {0}) (InRange 60 24),
                ))))

    pub fail_restore-Ends :
        (namespace : String) (e : Error) (detail : String)
        → Ends At (λ _. To) (fail_restore api namespace e detail)
    unfolding fail_restore
    fail_restore-Ends namespace e detail =
        Ends-the_restore api stored server (InRange a b) (InRange a b) _ λ base at.
          Ends-bind _ _ (now-Keeps-Holds api stored server (InRange a b) (InRange a b)) λ t.
            Ends-seq _ _
              (set_status-Keeps api stored server (InRange a b) (InRange a b) _
                (λ st h. record { attachment_le = h.attachment_le; ssh_le = h.ssh_le }))
              (Ends-bind _ _ (now-Keeps-Holds api stored server (InRange a b) (InRange a b)) λ t'.
                Ends-seq _ _
                  (set_status-Keeps api stored server (InRange a b) (InRange a b) _
                    (λ st h. record { attachment_le = h.attachment_le; ssh_le = h.ssh_le }))
                  (Ends-step _ _ (patch-Ends base) λ answer.
                    search
                      (
                        ends_rules,
                        record_event-Keeps api stored server (λ _. Unit {0}) (InRange 60 24),
                        the_restore-Keeps api stored server,
                        cleanup-Kept api stored server (λ _. Unit {0}) (InRange 60 24),
                      )
                      depth 9))

  -- A counter below its limit may be incremented.
  increment_retry-Ends :
      (kind : RetryType) (a b : ℕ) (delay : Time)
      → ((st : Status) → InRange a b st → InRange 60 24 (count_retry kind st))
      → ((st : Status) → InRange a b st → InRange 60 24 st)
      → Ends
          (Holds api stored server (InRange a b) (InRange a b))
          (λ _. Holds api stored server (λ _. Unit {0}) (InRange 60 24))
          (increment_retry_and_requeue api kind delay)
  unfolding increment_retry_and_requeue
  increment_retry-Ends kind a b delay counted wide =
      Ends-the_restore api stored server (InRange a b) (InRange a b) _ λ base at.
        Ends-then _ _
          (set_status-Ends api stored server (InRange 60 24) (InRange a b) (InRange a b) _ counted)
          (Ends-step _ _
            (patch_status-Ends api stored server (InRange 60 24) (InRange a b) (InRange 60 24) base
              (λ m s r merged hm hs. merge-InRange 60 24 base.status m s r merged hm (wide s hs))
              wide)
            λ answer. search (ends_rules, the_restore-Keeps api stored server))

  pub attachment_retry-Ends :
      (delay : Time)
      → Ends
          (At 59 24 (omega arith) (omega arith))
          (λ _. To 59 24 (omega arith) (omega arith))
          (increment_retry_and_requeue api attachment delay)
  attachment_retry-Ends delay =
      increment_retry-Ends attachment 59 24 delay (λ st h. omega arith) (λ st h. omega arith)

  pub ssh_retry-Ends :
      (delay : Time)
      → Ends
          (At 60 23 (omega arith) (omega arith))
          (λ _. To 60 23 (omega arith) (omega arith))
          (increment_retry_and_requeue api ssh delay)
  ssh_retry-Ends delay =
      increment_retry-Ends ssh 60 23 delay (λ st h. omega arith) (λ st h. omega arith)
