-- ===== src/Controller/Progress/Attempts.antt =====
-- Sequences of attempts in one phase.
use vm_file_restore_operator.Base.{
  ℕ, suc, ◌+◌, ◌≡◌, ◌≢◌, ◌≤◌, ◌<◌, refl, ap, ◌⊎◌, inl, inr, arith, leb, leb→le, Bool-cases,
}
use vm_file_restore_operator.Errors.{Error}
use vm_file_restore_operator.Types.{Status, RestorePhase}
use vm_file_restore_operator.Monad.{Action}
use vm_file_restore_operator.Api.{Api}
use vm_file_restore_operator.Controller.State.{St, Reply, fail}
use vm_file_restore_operator.Controller.Steps.{RetryType, retries_of}
use vm_file_restore_operator.Controller.Progress.{Progress, gave_error, left, counted}

lt_or_le : (a b : ℕ) → (a < b) ⊎ (b ≤ a)
lt_or_le a b = elim (Bool-cases (leb b a)) [
  | inl over ↦ inr (leb→le _ _ over)
  | inr below ↦ inl (ground arith)
]

module _ (api : Api) (stored : api.World → Status) (p : RestorePhase) (kind : RetryType)
    (due : St api.World → Type 0) (handler : Action (St api.World) Reply) where
  open api use {World}

  -- An attempt starts from the object as the server holds it, when it is due; it gives no error, and
  -- the restore is still in the phase.
  pub record Tried (s : St World) : Type 0 where
    pub read : s.restore.status ≡ stored s.world
    pub in_time : due s
    pub no_error : (e : Error) → (handler s).0 ≢ fail e
    pub stays : (stored (handler s).1.world).phase ≡ p

  -- So many attempts, from the one stored status to the other. Between them the status is not
  -- written.
  pub data Attempts (first : Status) : ℕ → Status → Type 0 where
    none_yet : Attempts first 0 first
    one_more :
        (n : ℕ) (s : St World)
        → Attempts first n (stored s.world)
        → Tried s
        → Attempts first (suc n) (stored (handler s).1.world)

  -- What the handler of the phase keeps to: an attempt makes progress, and from `limit` on none is
  -- made.
  pub record IsLimited (limit : ℕ) : Type 0 where
    pub attempt :
        (s : St World)
        → s.restore.status ≡ stored s.world
        → due s
        → s.restore.status.phase ≡ p
        → Progress p kind
            (retries_of kind s.restore.status)
            (handler s).0
            (stored (handler s).1.world)
    pub timeout :
        (s : St World)
        → s.restore.status ≡ stored s.world
        → s.restore.status.phase ≡ p
        → limit ≤ retries_of kind s.restore.status
        → ((e : Error) → (handler s).0 ≢ fail e)
        → (stored (handler s).1.world).phase ≢ p

  Progress-counted :
      (n : ℕ) (r : Reply) (st : Status)
      → Progress p kind n r st
      → ((e : Error) → r ≢ fail e)
      → st.phase ≡ p
      → retries_of kind st ≡ suc n
  Progress-counted n _ _ (gave_error e st) no_error here = absurd (no_error e refl)
  Progress-counted n _ _ (left r st away) no_error here = absurd (away here)
  Progress-counted n _ _ (counted r st e) no_error here = e

  module _ (limit : ℕ) (limited : IsLimited limit) where
    Tried-below :
        (s : St World)
        → Tried s
        → s.restore.status.phase ≡ p
        → retries_of kind s.restore.status < limit
    Tried-below s tried here = elim (lt_or_le (retries_of kind s.restore.status) limit) [
      | inl below ↦ below
      | inr over ↦ absurd (limited.timeout s tried.read here over tried.no_error tried.stays)
    ]

    Tried-count :
        (s : St World)
        → Tried s
        → s.restore.status.phase ≡ p
        → retries_of kind (stored (handler s).1.world) ≡ suc (retries_of kind s.restore.status)
    Tried-count s tried here =
        Progress-counted (retries_of kind s.restore.status) _ _
          (limited.attempt s tried.read tried.in_time here) tried.no_error tried.stays

    -- Every attempt is counted, so there are at most as many as are left below the limit.
    pub Attempts-count :
        (first last : Status) (n : ℕ)
        → Attempts first n last
        → first.phase ≡ p
        → retries_of kind first ≤ limit
        → (last.phase ≡ p)
          × (retries_of kind last ≡ n + retries_of kind first)
          × (n + retries_of kind first ≤ limit)
    Attempts-count first _ _ none_yet h k = (h, omega arith, omega (arith, k))
    Attempts-count first _ _ (one_more n s before tried) h k =
        let (here, count, bound) = Attempts-count first _ n before h k in
        let below = Tried-below s tried (rw tried.read here) in
        let next = Tried-count s tried (rw tried.read here) in
        let same : retries_of kind s.restore.status ≡ retries_of kind (stored s.world) =
          ap (retries_of kind) tried.read in
        (tried.stays, omega (arith, next, same, count), omega (arith, below, same, count))
