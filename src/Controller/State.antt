-- ===== src/Controller/State.antt =====
-- The state of one reconciliation: the world, and the object in memory that the handlers change
-- through their pointer `vmfr`.
use vm_file_restore_operator.Base.{String, Option, none, some}
use vm_file_restore_operator.Errors.{Error, Result, ok, err}
use vm_file_restore_operator.Types.{Time, FileRestore, Status}
use vm_file_restore_operator.Monad.{Action, ◌>>=◌}
use vm_file_restore_operator.Api.{Api, EventType}

pub record St (W : Type 0) : Type 0 where
  pub world : W
  pub restore : FileRestore

-- `(ctrl.Result, error)`, or a panic.
pub data Reply : Type 0 where
  stop : Reply  -- Result{}, nil
  requeue : Reply  -- Result{Requeue: true}, nil
  requeue_after : Time → Reply  -- Result{RequeueAfter: d}, nil
  fail : Error → Reply  -- Result{}, err
  panicked : String → Reply

-- The end of a function whose last step may have panicked.
unfoldable pub stop_after : Option String → Reply
stop_after none = stop
stop_after (some message) = panicked message

abbrev pub second : Time
second = 1_000_000_000

abbrev pub with_status : (Status → Status) → FileRestore → FileRestore
with_status f v = record v { status = f v.status }

module _ {W : Type 0} where
  unfoldable pub lift : {A : Type 0} → Action W A → Action (St W) A
  lift m s = let (a, w) = m s.world in (a, record s { world = w })

  -- An assignment to fields of `vmfr.Status`.
  unfoldable pub set_status : (Status → Status) → Action (St W) (Unit {0})
  set_status f s = (tt, record s { restore = with_status f s.restore })

  unfoldable pub the_restore : Action (St W) FileRestore
  the_restore s = (s.restore, s)

module _ (api : Api) where
  open api use {World}

  -- The object as the server sent it back.
  unfoldable pub store_patched : Result FileRestore → Action (St World) (Result (Unit {0}))
  store_patched (ok v) s = (ok tt, record s { restore = v })
  store_patched (err e) s = (err e, s)

  -- `r.Status().Patch(ctx, vmfr, MergeFrom(base))`. On success the object is the server's answer,
  -- on failure it stays as the handler left it.
  unfoldable pub patch_status : FileRestore → Action (St World) (Result (Unit {0}))
  unfolding store_patched lift the_restore
  patch_status base = do
    vmfr ← the_restore
    answer ← lift (api.patch_status base vmfr)
    store_patched answer

  -- `r.Recorder.Event(vmfr, …)`
  unfoldable pub record_event : EventType → String → String → Action (St World) (Unit {0})
  unfolding lift the_restore
  record_event kind reason message = do
    vmfr ← the_restore
    lift (api.event vmfr kind reason message)

  -- `metav1.Now()`
  unfoldable pub now : Action (St World) Time
  unfolding lift
  now = lift api.now
