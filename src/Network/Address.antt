-- ===== src/Network/Address.antt =====
-- The address that `GetVMIPAddress` chooses.
use vm_file_restore_operator.Base.{
  ◌≡◌, refl, sym, ◌∙◌, inl, inr, String, true, false, ◌&&◌, Option, none, some, find?, find?-passes,
  find?-exists, find?-none, exists, Bool-cases, Option-cases, eq_refl, ◌=?◌,
}
use vm_file_restore_operator.Base.Texts.{is_empty}
use vm_file_restore_operator.Errors.{Result, ok, err, errorf}
use vm_file_restore_operator.Types.{Interface, Instance, Pod}
use vm_file_restore_operator.Monad.{pure, ◌>>=◌, on_option}
use vm_file_restore_operator.Api.{Api}
use vm_file_restore_operator.Network.{
  get_vmi_ip_address, pod_ip_of, pod_address, get_pod_for_vmi, is_default_with_ip, has_ip,
  default_interface_name,
}

-- The test for the returned address passes at the interface it came from.
own_address : (f : Interface) → is_empty f.ip ≡ false → f.ip =? f.ip && has_ip f ≡ true
own_address f h = rw (h, eq_refl f.ip) refl

has_ip-filled : (i : Interface) → has_ip i ≡ true → is_empty i.ip ≡ false
has_ip-filled i h = elim (Bool-cases (is_empty i.ip)) [
  | inl empty ↦ let e : false ≡ true = rw empty at h in cc
  | inr filled ↦ filled
]

is_default-filled : (i : Interface) → is_default_with_ip i ≡ true → is_empty i.ip ≡ false
is_default-filled i h = has_ip-filled i (elim (Bool-cases (i.name =? default_interface_name)) [
  | inl named ↦ rw named at h
  | inr unnamed ↦ let e : false ≡ true = rw unnamed at h in cc
])

of_interface :
    (i : Interface) (ip : String) → is_empty i.ip ≡ false → ok i.ip ≡ ok ip → is_empty ip ≡ false
of_interface i ip f e = let k : i.ip ≡ ip = cc in rw (sym k) f

abbrev pub first_of : Option Interface → Option Interface → Option Interface
first_of none later = later
first_of (some d) later = some d

module _ (api : Api) where
  open api use {World}

  pod_address-filled :
      (r : Result Pod) (ip : String) → pod_address api r ≡ ok ip → is_empty ip ≡ false
  unfolding pod_address
  pod_address-filled (err e) ip h = cc
  pod_address-filled (ok pod) ip h = elim (Bool-cases (is_empty pod.pod_ip)) [
    | inl empty ↦ let e : err (errorf "pod IP not available") ≡ ok ip = rw empty at h in cc
    | inr filled ↦
        let e : ok pod.pod_ip ≡ ok ip = rw filled at h in
        let k : pod.pod_ip ≡ ip = cc in rw (sym k) filled
  ]

  -- Whatever the instance and the pods, an address that is returned is not empty.
  pub get_vmi_ip_address-filled :
      (vmi : Option Instance) (w : World) (ip : String)
      → (get_vmi_ip_address api vmi w).0 ≡ ok ip
      → is_empty ip ≡ false
  unfolding get_vmi_ip_address on_option pure pod_ip_of ◌>>=◌
  get_vmi_ip_address-filled none w ip h = cc
  get_vmi_ip_address-filled (some i) w ip h =
      elim (Option-cases (find? is_default_with_ip i.interfaces)) [
        | inr (d, e) ↦
            of_interface d ip (is_default-filled d (find?-passes _ i.interfaces d e)) (rw e at h)
        | inl e ↦ elim (Option-cases (find? has_ip i.interfaces)) [
          | inr (f, k) ↦
              of_interface f ip (has_ip-filled f (find?-passes _ i.interfaces f k)) (rw (e, k) at h)
          | inl k ↦ pod_address-filled (get_pod_for_vmi api i w).0 ip (rw (e, k) at h)
        ]
      ]

  -- Where some interface has an address, no call is made and an address of one of the instance's
  -- own interfaces is returned: the first of the interface "default" that is not empty, or else the
  -- first that is not empty.
  pub get_vmi_ip_address-local :
      (i : Instance) (w : World)
      → exists has_ip i.interfaces ≡ true
      → (f : Interface) × (first_of
            (find? is_default_with_ip i.interfaces)
            (find? has_ip i.interfaces)
          ≡ some f)
        × (exists (λ x. (x.ip =? f.ip) && has_ip x) i.interfaces ≡ true)
        × (get_vmi_ip_address api (some i) w ≡ (ok f.ip, w))
  unfolding get_vmi_ip_address on_option pure
  get_vmi_ip_address-local i w h = elim (Option-cases (find? is_default_with_ip i.interfaces)) [
    | inr (d, e) ↦ (
      d,
      rw e refl,
      find?-exists _ _ i.interfaces d e
          (own_address d (is_default-filled d (find?-passes _ i.interfaces d e))),
      rw e refl,
    )
    | inl e ↦ elim (Option-cases (find? has_ip i.interfaces)) [
      | inr (f, k) ↦ (
        f,
        rw (e, k) refl,
        find?-exists _ _ i.interfaces f k
            (own_address f (has_ip-filled f (find?-passes _ i.interfaces f k))),
        rw (e, k) refl,
      )
      | inl k ↦ absurd (let l : true ≡ false = sym h ∙ find?-none has_ip i.interfaces k in cc)
    ]
  ]
