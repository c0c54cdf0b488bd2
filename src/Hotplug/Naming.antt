-- ===== src/Hotplug/Naming.antt =====
-- The name of the restore volume.
use vm_file_restore_operator.Base.{
  ◌≡◌, refl, sym, subst, ◌∙◌, inl, inr, String, true, false, Bool-cases, append_cancel_right, some,
}
use vm_file_restore_operator.Base.Texts.{has_suffix, is_empty}
use vm_file_restore_operator.Base.Texts.Laws.{has_suffix-append, is_empty-append_right}
use vm_file_restore_operator.Hotplug.Names.{volume_name_of, restore_suffix, get_volume_name}

pub volume_name_of-filled : (n : String) → is_empty (volume_name_of n) ≡ false
volume_name_of-filled n = is_empty-append_right n restore_suffix refl

pub volume_name_of-suffix : (n : String) → has_suffix (volume_name_of n) restore_suffix ≡ true
volume_name_of-suffix n = has_suffix-append n restore_suffix

pub volume_name_of-injective : (a b : String) → volume_name_of a ≡ volume_name_of b → a ≡ b
volume_name_of-injective a b e = append_cancel_right a b restore_suffix e

name_given : (a n : String) → get_volume_name a ≡ some n → volume_name_of a ≡ n
unfolding get_volume_name
name_given a n h = elim (Bool-cases (is_empty a)) [
  | inl empty ↦ cc
  | inr filled ↦ let e : some (volume_name_of a) ≡ some n = rw filled at h in cc
]

-- Two restores whose volumes have the same name have the same name themselves, and every volume
-- name has the suffix by which other restores recognise it.
pub get_volume_name-injective :
    (a b n : String)
    → get_volume_name a ≡ some n
    → get_volume_name b ≡ some n
    → (a ≡ b) × (has_suffix n restore_suffix ≡ true)
get_volume_name-injective a b n ha hb = (
  volume_name_of-injective a b (name_given a n ha ∙ sym (name_given b n hb)),
  subst (λ m. has_suffix m restore_suffix ≡ true) (name_given a n ha) (volume_name_of-suffix a),
)
