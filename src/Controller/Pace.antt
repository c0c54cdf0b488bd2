-- ===== src/Controller/Pace.antt =====
-- The delays and the rate limits of internal/controller/phases.go.
use vm_file_restore_operator.Base.{
  ◌≡◌, ◌≤◌, ◌<◌, ◌+◌, ◌-◌, ◌*◌, ℕ, refl, false, String, some, leb, lt→ltb, arith,
}
use vm_file_restore_operator.Types.{Time}
use vm_file_restore_operator.Monad.{pure, ◌>>=◌, on_option}
use vm_file_restore_operator.Api.{Api}
use vm_file_restore_operator.Controller.State.{St, requeue_after, second, the_restore, lift, now}
use vm_file_restore_operator.Controller.Steps.{backoff}
use vm_file_restore_operator.Controller.Attachment.{
  handle_waiting_for_attachment_phase, attachment_check, rate_limit, remaining_wait, check_interval,
}
use vm_file_restore_operator.Controller.Restoring.{handle_ssh_connecting_phase, ssh_check}

below : (a n : ℕ) → n < a → leb a n ≡ false
below a n h = ground arith

-- From a base delay of at most 30 seconds, the delay is at least that and at most 30 seconds, and
-- it does not shrink from one retry to a later one.
pub backoff-grows :
    (base : Time) (n m : ℕ)
    → base ≤ 30 * second
    → n ≤ m
    → (base ≤ backoff base n) × (backoff base m ≤ 30 * second) × (backoff base n ≤ backoff base m)
unfolding backoff
backoff-grows base n m h k = ground arith

module _ (api : Api) (namespace : String) where
  open api use {World}

  abbrev clock_read : St World → St World
  clock_read s = record s { world = (api.now s.world).1 }

  -- Within 5 seconds of the last check for the attachment and below the limit of 60 retries, the handler does
  -- nothing but read the clock, and comes back when the 5 seconds are over.
  pub handle_waiting_for_attachment_phase-early :
      (s : St World) (last : Time)
      → s.restore.status.attachment_retries < 60
      → s.restore.status.last_attachment_check_time ≡ some last
      → (api.now s.world).0 < last + check_interval
      → handle_waiting_for_attachment_phase api namespace s
        ≡ (requeue_after (last + check_interval - (api.now s.world).0), clock_read s)
  unfolding handle_waiting_for_attachment_phase attachment_check rate_limit remaining_wait on_option
      pure ◌>>=◌ the_restore now lift
  handle_waiting_for_attachment_phase-early s last h e early =
      rw (below 60 _ h) (rw e (rw (lt→ltb _ _ early) refl))

  -- Within 5 seconds of the last check for SSH and below the limit of 24 retries, the handler does
  -- nothing but read the clock, and comes back when the 5 seconds are over.
  pub handle_ssh_connecting_phase-early :
      (s : St World) (last : Time)
      → s.restore.status.ssh_retries < 24
      → s.restore.status.last_ssh_check_time ≡ some last
      → (api.now s.world).0 < last + check_interval
      → handle_ssh_connecting_phase api namespace s
        ≡ (requeue_after (last + check_interval - (api.now s.world).0), clock_read s)
  unfolding handle_ssh_connecting_phase ssh_check rate_limit remaining_wait on_option pure ◌>>=◌
      the_restore now lift
  handle_ssh_connecting_phase-early s last h e early =
      rw (below 24 _ h) (rw e (rw (lt→ltb _ _ early) refl))
