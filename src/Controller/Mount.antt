-- ===== src/Controller/Mount.antt =====
-- The mount path of a restore whose volume is being plugged and mounted.
pub mod Keeping
pub mod Mounting
pub mod Beginning
pub mod Reconciling
pub mod Safety
use vm_file_restore_operator.Base.{◌≡◌, inl, inr, refl, sym, ◌∙◌, Bool, true, false}
use vm_file_restore_operator.Base.Texts.{is_empty}
use vm_file_restore_operator.Types.{
  Status, RestorePhase, hotplugging, waiting_for_attachment, ssh_connecting, restoring,
}
use vm_file_restore_operator.Server.{Merged}

-- The phases in which a mount path is needed.
abbrev pub is_mounting : RestorePhase → Bool
is_mounting hotplugging = true
is_mounting waiting_for_attachment = true
is_mounting ssh_connecting = true
is_mounting restoring = true
is_mounting _ = false

pub record Filled (st : Status) : Type 0 where
  pub filled : is_empty st.mount_path ≡ false

-- A status that is in such a phase has a mount path.
abbrev pub Ready : Status → Type 0
Ready st = is_mounting st.phase ≡ true → Filled st

pub merge-Filled : (b m s r : Status) → Merged b m s r → Filled m → Filled s → Filled r
merge-Filled b m s r merged hm hs = record {
  filled = elim merged.mount_path [ inl sent ↦ rw sent hm.filled | inr kept ↦ rw kept.1 hs.filled ];
}

pub same_path : (st st' : Status) → st'.mount_path ≡ st.mount_path → Filled st → Filled st'
same_path st st' e h = record { filled = rw e h.filled }
