-- ===== src/Controller/Progress.antt =====
-- The steps that the two handlers with a retry counter share: what an answer says of the stored
-- phase and of the counter.
pub mod Attempts
pub mod Waiting
pub mod Connecting
use vm_file_restore_operator.Base.{
  ℕ, suc, ◌+◌, ◌≡◌, ◌≢◌, ◌∙◌, refl, sym, subst, ap, ◌⊎◌, inl, inr, String, Bool, arith,
}
use vm_file_restore_operator.Errors.{Error, Result, ok, err}
use vm_file_restore_operator.Types.{FileRestore, Status, Time, RestorePhase, failed}
use vm_file_restore_operator.Monad.{Action, pure, ◌>>=◌, on_result}
use vm_file_restore_operator.Monad.Rules.{
  Ends, Keeps, ends_rules, Ends-given, Ends-then, Ends-bind, Ends-seq,
}
use vm_file_restore_operator.Api.{Api}
use vm_file_restore_operator.Server.{IsServer, Merged, MergedField}
use vm_file_restore_operator.Controller.State.{
  St, Reply, stop, requeue, requeue_after, fail, the_restore, set_status, patch_status, lift,
}
use vm_file_restore_operator.Controller.Both.{
  Holds, Ends-the_restore, set_status-Ends, set_status-Keeps, patch_status-Keeps, the_restore-Keeps,
}
use vm_file_restore_operator.Controller.Stored.{transition_phase-Says, fail_restore-Says}
use vm_file_restore_operator.Controller.Steps.{
  RetryType, attachment, ssh, retries_of, count_retry, stamp, transition_phase, fail_restore,
  increment_retry_and_requeue,
}
use vm_file_restore_operator.Controller.Replies.{
  OneOf, is_error, is_it, transition_phase-Replies, fail_restore-Replies,
}

-- The calls of a handler failed or were refused; or the phase `p` is left; or the counter is one
-- more than `n`.
pub data Progress (p : RestorePhase) (kind : RetryType) (n : ℕ) : Reply → Status → Type 0 where
  gave_error : (e : Error) (st : Status) → Progress p kind n (fail e) st
  left : (r : Reply) (st : Status) → st.phase ≢ p → Progress p kind n r st
  counted : (r : Reply) (st : Status) → retries_of kind st ≡ suc n → Progress p kind n r st

retries-Merged :
    (kind : RetryType) (b m s r : Status)
    → Merged b m s r
    → MergedField (retries_of kind b) (retries_of kind m) (retries_of kind s) (retries_of kind r)
retries-Merged attachment b m s r merged = merged.attachment_retries
retries-Merged ssh b m s r merged = merged.ssh_retries

retries-count :
    (kind : RetryType) (st : Status)
    → retries_of kind (count_retry kind st) ≡ suc (retries_of kind st)
retries-count attachment st = omega arith
retries-count ssh st = omega arith

module _ (api : Api) (stored : api.World → Status) (server : IsServer api stored) (p : RestorePhase)
    (kind : RetryType) where
  open api use {World}

  abbrev pub Any : Status → Type 0
  Any st = Unit {0}

  abbrev pub InPhase : Status → Type 0
  InPhase st = st.phase ≡ p

  -- In the phase, with the counter at `n`.
  pub record Live (n : ℕ) (st : Status) : Type 0 where
    pub phase : st.phase ≡ p
    pub retries : retries_of kind st ≡ n

  pub merge-InPhase : (base m s r : Status) → Merged base m s r → InPhase m → InPhase s → InPhase r
  merge-InPhase base m s r merged hm hs = elim merged.phase [
    | inl sent ↦ sent ∙ hm
    | inr kept ↦ kept.1 ∙ hs
  ]

  merge-Live : (n : ℕ) (base m s r : Status) → Merged base m s r → Live n m → Live n s → Live n r
  merge-Live n base m s r merged hm hs = record {
    phase = merge-InPhase base m s r merged hm.phase hs.phase;
    retries = elim (retries-Merged kind base m s r merged) [
      | inl sent ↦ sent ∙ hm.retries
      | inr kept ↦ kept.1 ∙ hs.retries
    ];
  }

  -- Out of the counter's count, in the phase still.
  pub patch-InPhase :
      (base : FileRestore) → Keeps (Holds api stored server InPhase InPhase) (patch_status api base)
  patch-InPhase base =
      patch_status-Keeps api stored server InPhase base
        λ m s r merged hm hs. merge-InPhase base.status m s r merged hm hs

  module _ (n : ℕ) where
    abbrev pub At : St World → Type 0
    At = Holds api stored server (Live n) (Live n)

    pub At-InPhase : (s : St World) → At s → Holds api stored server InPhase InPhase s
    At-InPhase s h = (h.0.phase, h.1.phase)

    -- What the server holds was read.
    pub At-read :
        (s : St World)
        → s.restore.status ≡ stored s.world
        → s.restore.status.phase ≡ p
        → retries_of kind s.restore.status ≡ n
        → At s
    At-read s same here count = (
      record { phase = here; retries = count },
      subst (Live n) same (record { phase = here; retries = count }),
    )

    abbrev pub Ended : Reply → St World → Type 0
    Ended r = Holds api stored server Any (Progress p kind n r)

    pub patch-At : (base : FileRestore) → Keeps At (patch_status api base)
    patch-At base =
        patch_status-Keeps api stored server (Live n) base
          λ m s r merged hm hs. merge-Live n base.status m s r merged hm hs

    pub pure-error-Ended : {P : St World → Type 0} (e : Error) → Ends P Ended (pure (fail e))
    unfolding pure
    pure-error-Ended e = record { at = λ s h. (tt, gave_error e _) }

    -- An assignment that changes neither.
    pub assign-At :
        (f : Status → Status)
        → ((st : Status) → (f st).phase ≡ st.phase)
        → ((st : Status) → retries_of kind (f st) ≡ retries_of kind st)
        → Keeps At (set_status f)
    assign-At f kp kr =
        set_status-Keeps api stored server (Live n) (Live n) f
          λ st h. record { phase = kp st ∙ h.phase; retries = kr st ∙ h.retries }

    reached-Progress :
        (r reply : Reply) (q : RestorePhase) (st : Status)
        → q ≢ p
        → OneOf r reply
        → (reply ≡ r → st.phase ≡ q)
        → Progress p kind n reply st
    reached-Progress r _ q st other (is_error e) says = gave_error e st
    reached-Progress r _ q st other is_it says = left r st (λ here. other (sym (says refl) ∙ here))

    -- A transition to another phase.
    pub transition_phase-Progress :
        (q : RestorePhase) (message : String)
        → q ≢ p
        → Ends (Holds api stored server InPhase InPhase) Ended (transition_phase api q message)
    transition_phase-Progress q message other = record {
      at = λ s h. (
        tt,
        reached-Progress requeue _ q _ other ((transition_phase-Replies api q message).at s tt) (
            (transition_phase-Says api stored server q message).at s
              ((λ there. other (sym there ∙ h.0)), tt)),
      );
    }

    -- Giving up.
    pub fail_restore-Progress :
        (namespace : String) (e : Error) (detail : String)
        → failed ≢ p
        → Ends At Ended (fail_restore api namespace e detail)
    fail_restore-Progress namespace e detail other = record {
      at = λ s h. (
        tt,
        reached-Progress stop _ failed _ other
            ((fail_restore-Replies api namespace e detail).at s tt)
            ((fail_restore-Says api stored server namespace e detail).at s
              ((λ there. other (sym there ∙ h.0.phase)), tt)),
      );
    }

    given_up :
        (reply : Reply) (st : Status)
        → failed ≢ p
        → OneOf stop reply
        → (reply ≡ stop → st.phase ≡ failed)
        → ((e : Error) → reply ≢ fail e)
        → st.phase ≢ p
    given_up _ st other (is_error e) says no_error = absurd (no_error e refl)
    given_up _ st other is_it says no_error = λ here. other (sym (says refl) ∙ here)

    -- Giving up without an error leaves the phase.
    pub fail_restore-leaves :
        (namespace : String) (e : Error) (detail : String) (s : St World)
        → failed ≢ p
        → At s
        → ((x : Error) → (fail_restore api namespace e detail s).0 ≢ fail x)
        → (stored (fail_restore api namespace e detail s).1.world).phase ≢ p
    fail_restore-leaves namespace e detail s other h =
        given_up _ (stored (fail_restore api namespace e detail s).1.world) other
          ((fail_restore-Replies api namespace e detail).at s tt)
          ((fail_restore-Says api stored server namespace e detail).at s
            ((λ there. other (sym there ∙ h.0.phase)), tt))

    -- The answer of the patch says that the counter is stored.
    abbrev Counted : Result (Unit {0}) → St World → Type 0
    Counted a s = a ≡ ok tt → retries_of kind (stored s.world) ≡ suc n

    patch_counted :
        (base : FileRestore) (s : St World) (answer : Result FileRestore)
        → (api.patch_status base s.restore s.world).0 ≡ answer
        → retries_of kind base.status ≡ n
        → retries_of kind s.restore.status ≡ suc n
        → (patch_status api base s).0 ≡ ok tt
        → retries_of kind (stored (patch_status api base s).1.world) ≡ suc n
    unfolding patch_status the_restore ◌>>=◌
    patch_counted base s (ok v) e hb h r =
        rw (e, patch_status)
          (subst (λ st. retries_of kind st ≡ suc n) (server.patch_stored base s.restore s.world v e)
            (elim (retries-Merged kind base.status s.restore.status (stored s.world) v.status
              (server.patch_merged base s.restore s.world v e)) [
                | inl sent ↦ sent ∙ h
                | inr unsent ↦ absurd (omega (arith, unsent.0, hb, h))
              ]))
    patch_counted base s (err x) e hb h r =
        absurd (let c : err x ≡ ok (tt {0}) = rw (e, patch_status) at r in cc)

    after_count :
        (a : Result (Unit {0})) (wrapped : Error → Error) (delay : FileRestore → Time)
        → Ends (Counted a) Ended (
            on_result a
              (λ e. pure (fail (wrapped e)))
              (λ _. the_restore >>= λ v. pure (requeue_after (delay v))))
    unfolding on_result pure the_restore ◌>>=◌
    after_count (ok _) wrapped delay = record { at = λ s h. (tt, counted _ _ (h refl)) }
    after_count (err e) wrapped delay = pure-error-Ended (wrapped e)

    -- A counted attempt.
    pub increment-Progress :
        (delay : Time) → Ends At Ended (increment_retry_and_requeue api kind delay)
    unfolding increment_retry_and_requeue
    increment-Progress delay = Ends-the_restore api stored server (Live n) (Live n) _ λ base live.
        Ends-then _ _
          (set_status-Ends api stored server (λ st. retries_of kind st ≡ suc n) (Live n) (Live n)
            (count_retry kind) (λ st h. retries-count kind st ∙ ap suc h.retries))
          (Ends-given _ _ (record { at = λ s h. patch_counted base s _ refl live.retries h.0 })
            λ a. after_count a _ _)
