-- ===== src/Controller/Both.antt =====
-- Properties of the object in memory and of the stored status, and what keeps them.
use vm_file_restore_operator.Base.{◌≡◌, refl, sym, inl, inr, String, subst}
use vm_file_restore_operator.Errors.{Result, ok, err}
use vm_file_restore_operator.Types.{FileRestore, Status}
use vm_file_restore_operator.Monad.{Action, ◌>>=◌}
use vm_file_restore_operator.Monad.Rules.{Ends, Keeps}
use vm_file_restore_operator.Api.{Api, EventType}
use vm_file_restore_operator.Server.{IsServer, Merged}
use vm_file_restore_operator.Server.Quiet.{event-Keeps, now-Keeps, Same}
use vm_file_restore_operator.Controller.State.{
  St, lift, set_status, the_restore, patch_status, record_event, now,
}

module _ (api : Api) (stored : api.World → Status) (server : IsServer api stored) where
  open api use {World}

  -- `M` holds of the status in memory and `N` of the stored one.
  abbrev pub Holds : (Status → Type 0) → (Status → Type 0) → St World → Type 0
  Holds M N s = M s.restore.status × N (stored s.world)

  module _ (M N : Status → Type 0) where
    pub lift-Keeps :
        {A : Type 0} (m : Action World A)
        → ((st : Status) → Keeps (Same api stored server st) m)
        → Keeps (Holds M N) (lift m)
    unfolding lift
    lift-Keeps m k = record {
      at = λ s h. (h.0, subst N (sym ((k (stored s.world)).at s.world refl)) h.1);
    }

    pub the_restore-Keeps : Keeps (Holds M N) the_restore
    unfolding the_restore
    the_restore-Keeps = record { at = λ s h. h }

    pub set_status-Keeps :
        (f : Status → Status) → ((st : Status) → M st → M (f st)) → Keeps (Holds M N) (set_status f)
    unfolding set_status
    set_status-Keeps f k = record { at = λ s h. (k s.restore.status h.0, h.1) }

    pub now-Keeps-Holds : Keeps (Holds M N) (now api)
    unfolding now
    now-Keeps-Holds = lift-Keeps api.now (now-Keeps api stored server)

    pub record_event-Keeps :
        (t : EventType) (reason message : String)
        → Keeps (Holds M N) (record_event api t reason message)
    unfolding record_event the_restore ◌>>=◌
    record_event-Keeps t reason message = record {
      at = λ s h.
          (lift-Keeps (api.event s.restore t reason message)
              (λ st. event-Keeps api stored server st s.restore t reason message)).at
            s h;
    }

    -- The object that the rest of the block works on has the property.
    pub Ends-the_restore :
        {B : Type 0} {Q : B → St World → Type 0} (f : FileRestore → Action (St World) B)
        → ((v : FileRestore) → M v.status → Ends (Holds M N) Q (f v))
        → Ends (Holds M N) Q (the_restore >>= f)
    unfolding the_restore ◌>>=◌
    Ends-the_restore f e = record { at = λ s h. (e s.restore h.0).at s h }

    -- An assignment that leads from `L` to `M` in memory.
    pub set_status-Ends :
        (L : Status → Type 0) (f : Status → Status)
        → ((st : Status) → L st → M (f st))
        → Ends (Holds L N) (λ _. Holds M N) (set_status f)
    unfolding set_status
    set_status-Ends L f k = record { at = λ s h. (k s.restore.status h.0, h.1) }

  -- A patch: on success the merged status is in memory and stored; on failure memory stays, and the
  -- stored status stays or is the merged one.
  module _ (M N R : Status → Type 0) (base : FileRestore) where
    patched :
        (merge : (m s r : Status) → Merged base.status m s r → M m → N s → R r)
        (keep : (s : Status) → N s → R s) (s : St World) (answer : Result FileRestore)
        → (api.patch_status base s.restore s.world).0 ≡ answer
        → Holds M N s
        → R (stored (patch_status api base s).1.world)
    unfolding patch_status the_restore ◌>>=◌
    patched merge keep s (ok v) e h =
        rw (e, patch_status)
          (subst R (server.patch_stored base s.restore s.world v e) (
            merge s.restore.status (stored s.world) v.status
              (server.patch_merged base s.restore s.world v e) h.0 h.1))
    patched merge keep s (err x) e h =
        rw (e, patch_status)
          (elim (server.patch_failed base s.restore s.world x e) [
            | inl same ↦ keep _ (subst N (sym same) h.1)
            | inr merged ↦ merge s.restore.status (stored s.world) _ merged h.0 h.1
          ])

    -- Where the merged status has `R`, and so has a stored one that stays.
    pub patch_status-Ends :
        ((m s r : Status) → Merged base.status m s r → M m → N s → R r)
        → ((s : Status) → N s → R s)
        → Ends (Holds M N) (λ _. Holds (λ _. Unit {0}) R) (patch_status api base)
    patch_status-Ends merge keep = record {
      at = λ s h. (tt, patched merge keep s (api.patch_status base s.restore s.world).0 refl h);
    }

  module _ (Q : Status → Type 0) (base : FileRestore)
      (merge : (m s r : Status) → Merged base.status m s r → Q m → Q s → Q r) where
    in_memory :
        (s : St World) (answer : Result FileRestore)
        → (api.patch_status base s.restore s.world).0 ≡ answer
        → Holds Q Q s
        → Q (patch_status api base s).1.restore.status
    unfolding patch_status the_restore ◌>>=◌
    in_memory s (ok v) e h =
        rw (e, patch_status)
          (merge s.restore.status (stored s.world) v.status
            (server.patch_merged base s.restore s.world v e) h.0 h.1)
    in_memory s (err x) e h = rw (e, patch_status) h.0

    -- A patch keeps what merging keeps.
    pub patch_status-Keeps : Keeps (Holds Q Q) (patch_status api base)
    patch_status-Keeps = record {
      at = λ s h. (
        in_memory s (api.patch_status base s.restore s.world).0 refl h,
        patched Q Q Q base merge (λ _ q. q) s (api.patch_status base s.restore s.world).0 refl h,
      );
    }
