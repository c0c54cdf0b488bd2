-- ===== src/Controller/Mount/Beginning.antt =====
-- `handleInitPhase`, on the mount path: it is written before the phase.
use vm_file_restore_operator.Base.{◌≡◌, ◌∙◌, inl, inr, refl, sym, subst, String, false}
use vm_file_restore_operator.Errors.{Error, Result, ok, err}
use vm_file_restore_operator.Types.{
  FileRestore, Status, Instance, RestorePhase, failed, hotplugging,
}
use vm_file_restore_operator.Monad.{pure, on_result, ◌>>=◌, ◌>>◌}
use vm_file_restore_operator.Monad.Rules.{
  Ends, ends_rules, Ends-then, Ends-step, Ends-seq, Ends-bind, Ends-given,
}
use vm_file_restore_operator.Api.{Api}
use vm_file_restore_operator.Server.{IsServer, Merged}
use vm_file_restore_operator.Ssh.Commands.{mount_path-filled}
use vm_file_restore_operator.Controller.State.{St, set_status, the_restore, patch_status, fail}
use vm_file_restore_operator.Controller.Lifted.{
  cleanup-Kept, get_machine-Kept, get_instance-Kept, get_claim-Kept, get_snapshot-Kept,
}
use vm_file_restore_operator.Controller.Both.{
  Holds, set_status-Keeps, now-Keeps-Holds, record_event-Keeps, Ends-the_restore, the_restore-Keeps,
  set_status-Ends, patch_status-Ends,
}
use vm_file_restore_operator.Controller.Steps.{fail_restore, transition_phase}
use vm_file_restore_operator.Controller.Init.{handle_init_phase, start_hotplug}
use vm_file_restore_operator.Controller.Mount.{Filled, Ready, is_mounting}
use vm_file_restore_operator.Controller.Mount.Keeping.{Pathed, transition_phase-Keeps}

-- A status of the phase with the mount path.
pub record From (p : RestorePhase) (dir : String) (st : Status) : Type 0 where
  pub phase : st.phase ≡ p
  pub path : st.mount_path ≡ dir

-- A status of the phase with some mount path.
record Aimed (p : RestorePhase) (st : Status) : Type 0 where
  phase : st.phase ≡ p
  filled : Filled st

Ready-of_phase : (q : RestorePhase) (st : Status) → is_mounting q ≡ false → st.phase ≡ q → Ready st
Ready-of_phase q st h e mounting = cc

-- A phase that is sent, or is the one that is stored already.
entered :
    (p q : RestorePhase) (b m s r : Status)
    → Merged b m s r
    → b.phase ≡ p
    → m.phase ≡ q
    → s.phase ≡ p
    → r.phase ≡ q
entered p q b m s r merged eb em es = elim merged.phase [
  | inl sent ↦ sent ∙ em
  | inr kept ↦ kept.1 ∙ es ∙ sym eb ∙ sym kept.0 ∙ em
]

-- The patch of the mount path: written, or already the one that is stored.
merge-Aimed :
    (p : RestorePhase) (path : String) (b m s r : Status)
    → Merged b m s r
    → From p path b
    → Aimed p m
    → From p path s
    → Filled r
merge-Aimed p path b m s r merged hb hm hs = record {
  filled = elim merged.mount_path [
    | inl sent ↦ rw sent hm.filled.filled
    | inr kept ↦ rw (kept.1 ∙ hs.path ∙ sym hb.path ∙ sym kept.0) hm.filled.filled
  ];
}

module _ (api : Api) (stored : api.World → Status) (server : IsServer api stored)
    (namespace : String) (p : RestorePhase) (unmounted : is_mounting p ≡ false)
    (path : String) where
  open api use {World}

  abbrev pub Start : St World → Type 0
  Start = Holds api stored server (From p path) (From p path)

  abbrev pub Out : St World → Type 0
  Out = Holds api stored server (λ _. Unit {0}) Ready

  From-Ready : (st : Status) → From p path st → Ready st
  From-Ready st h = Ready-of_phase p st unmounted h.phase

  pub fail_restore-Ready :
      (e : Error) (detail : String) → Ends Start (λ _. Out) (fail_restore api namespace e detail)
  unfolding fail_restore
  fail_restore-Ready e detail =
      Ends-the_restore api stored server (From p path) (From p path) _ λ base at.
        Ends-bind _ _ (now-Keeps-Holds api stored server (From p path) (From p path)) λ t.
          Ends-then _ _
            (set_status-Ends api stored server (λ st. st.phase ≡ failed) (From p path) (From p path)
              _ (λ st _. refl))
            (Ends-bind _ _
              (now-Keeps-Holds api stored server (λ st. st.phase ≡ failed) (From p path))
              λ t'.
                Ends-seq _ _
                  (set_status-Keeps api stored server (λ st. st.phase ≡ failed) (From p path) _
                    (λ st x. x))
                  (Ends-step _ _
                    (patch_status-Ends api stored server (λ st. st.phase ≡ failed) (From p path)
                      Ready base
                      (λ m s r merged em es.
                        Ready-of_phase failed r refl
                          (entered p failed base.status m s r merged at.phase em es.phase))
                      From-Ready)
                    λ answer.
                      search
                        (
                          ends_rules,
                          record_event-Keeps api stored server (λ _. Unit {0}) Ready,
                          the_restore-Keeps api stored server,
                          cleanup-Kept api stored server (λ _. Unit {0}) Ready,
                        )
                        depth 9))

  abbrev Aiming : St World → Type 0
  Aiming = Holds api stored server (Aimed p) (From p path)

  -- What the patch of the mount path leaves.
  Landed : Result (Unit {0}) → St World → Type 0
  Landed (ok _) s = Pathed api stored server namespace s
  Landed (err _) s = Holds api stored server (λ _. Unit {0}) Ready s

  patched-Landed :
      (base : FileRestore)
      → From p path base.status
      → (s : St World) (answer : Result FileRestore)
      → (api.patch_status base s.restore s.world).0 ≡ answer
      → Aiming s
      → Landed (patch_status api base s).0 (patch_status api base s).1
  unfolding patch_status the_restore ◌>>=◌ Landed
  patched-Landed base hb s (ok v) e h =
      let merged : Filled v.status =
        merge-Aimed p path base.status s.restore.status (stored s.world) v.status
          (server.patch_merged base s.restore s.world v e) hb h.0 h.1 in
      rw (e, patch_status)
        (merged, subst Filled (server.patch_stored base s.restore s.world v e) merged)
  patched-Landed base hb s (err x) e h =
      rw (e, patch_status)
        (
          tt,
          elim (server.patch_failed base s.restore s.world x e) [
            | inl same ↦ From-Ready _ (subst (From p path) (sym same) h.1)
            | inr merged ↦ Ready-of_phase p _ unmounted (
                entered p p base.status s.restore.status (stored s.world) _ merged hb.phase
                  h.0.phase h.1.phase)
          ],
        )

  patch-Landed :
      (base : FileRestore) → From p path base.status → Ends Aiming Landed (patch_status api base)
  patch-Landed base hb = record { at = λ s h. patched-Landed base hb s _ refl h }

  after_patch-Ready :
      (answer : Result (Unit {0}))
      → Ends
          (Landed answer)
          (λ _. Out)
          (on_result answer
            (λ e. do set_status (λ st. record st { mount_path = "" }); pure (fail e))
            (λ _. transition_phase api hotplugging "Validation complete, starting volume hotplug"))
  unfolding on_result Landed
  after_patch-Ready (ok a) = record {
    at = λ s h. (tt, λ _. ((transition_phase-Keeps api stored server namespace _ _).at s h).1);
  }
  after_patch-Ready (err e) =
      search (ends_rules, set_status-Keeps api stored server (λ _. Unit {0}) Ready)

  start_hotplug-Ready : (vmi : Instance) → Ends Start (λ _. Out) (start_hotplug api namespace vmi)
  unfolding start_hotplug
  start_hotplug-Ready vmi =
      Ends-the_restore api stored server (From p path) (From p path) _ λ base at.
        Ends-then _ _
          (set_status-Ends api stored server (Aimed p) (From p path) (From p path) _ (λ st h.
            record { phase = h.phase; filled = record { filled = mount_path-filled vmi _ } }))
          (Ends-given _ _ (patch-Landed base at) after_patch-Ready)

  -- The first handler leaves no phase that needs a mount path without one.
  pub init-Ready : Ends Start (λ _. Out) (handle_init_phase api namespace)
  unfolding handle_init_phase
  init-Ready =
      search
        (
          ends_rules,
          Ends-the_restore api stored server (From p path) (From p path),
          get_machine-Kept api stored server (From p path) (From p path),
          get_instance-Kept api stored server (From p path) (From p path),
          get_claim-Kept api stored server (From p path) (From p path),
          get_snapshot-Kept api stored server (From p path) (From p path),
          start_hotplug-Ready,
          fail_restore-Ready,
        )
        depth 25
