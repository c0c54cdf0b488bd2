-- ===== src/Controller/Runs/Stages.antt =====
-- The stages of a run.
use vm_file_restore_operator.Base.{
  [], ◌≡◌, ◌≢◌, subst, ◌⊎◌, inl, inr, refl, sym, ◌∙◌, String, true, false, List, ◌∷◌,
}
use vm_file_restore_operator.Types.{
  Status, RestorePhase, hotplugging, waiting_for_attachment, ssh_connecting, restoring, cleanup,
  succeeded,
}
use vm_file_restore_operator.Api.{Api}
use vm_file_restore_operator.Server.{IsServer}
use vm_file_restore_operator.Controller.Graph.{◌⟶◌, plug, attach, connect, copy, finish}
use vm_file_restore_operator.Controller.Steps.{is_initial}
use vm_file_restore_operator.Controller.Runs.{Runs, here, after, Visits, rest, visit}
use vm_file_restore_operator.Controller.Runs.Order.{Step-Moves}

to_succeeded : (p : RestorePhase) → p ⟶ succeeded → p ≡ cleanup
to_succeeded _ finish = refl

to_cleanup : (p : RestorePhase) → p ⟶ cleanup → p ≡ restoring
to_cleanup _ copy = refl

to_restoring : (p : RestorePhase) → p ⟶ restoring → p ≡ ssh_connecting
to_restoring _ connect = refl

to_ssh_connecting : (p : RestorePhase) → p ⟶ ssh_connecting → p ≡ waiting_for_attachment
to_ssh_connecting _ attach = refl

to_waiting : (p : RestorePhase) → p ⟶ waiting_for_attachment → p ≡ hotplugging
to_waiting _ plug = refl

initial-≢ : (p q : RestorePhase) → is_initial p ≡ true → is_initial q ≡ false → p ≢ q
initial-≢ p q h k e = cc

module _ (api : Api) (stored : api.World → Status) (server : IsServer api stored)
    (namespace : String) where
  open api use {World}

  -- A phase with one way in is entered from there.
  entered :
      (p q : RestorePhase)
      → ((r : RestorePhase) → r ⟶ q → r ≡ p)
      → (w w' : World) → Runs api stored namespace w w'
      → (stored w').phase ≡ q
      → ((stored w).phase ≡ q)
        ⊎ ((m : World) × Runs api stored namespace w m
            × ((stored m).phase ≡ p)
            × Runs api stored namespace m w')
  entered p q only _ _ (here w) e = inl e
  entered p q only w w' (after {m = m} s r) e = elim (entered p q only m w' r e) [
    | inr (m', before, at, onward) ↦ inr (m', after s before, at, onward)
    | inl there ↦ elim (Step-Moves api stored server namespace w m s) [
      | inl same ↦ inl (sym same ∙ there)
      | inr edge ↦ inr (w, here w, only _ (subst (λ x. (stored w).phase ⟶ x) there edge), after s r)
    ]
  ]

  -- A run from a new object that visits `q` first visits `p` before.
  Visits-before :
      (p q : RestorePhase) (ps : List RestorePhase)
      → ((r : RestorePhase) → r ⟶ q → r ≡ p)
      → is_initial q ≡ false
      → (w w' : World) → is_initial (stored w).phase ≡ true
      → Visits api stored namespace (q ∷ ps) w w'
      → Visits api stored namespace (p ∷ q ∷ ps) w w'
  Visits-before p q ps only late w w' start (visit {m = m} r e v) =
      elim (entered p q only w m r e) [
        | inl already ↦ absurd (initial-≢ _ q start late already)
        | inr (m', before, at, onward) ↦ visit before at (visit onward e v)
      ]

  -- With a server that keeps `IsServer`, a restore that starts in the empty phase or in `New` and
  -- ends in `Succeeded`, by reconciliations each of which reads the status as it is stored, has come through `Hotplugging`, `WaitingForAttachment`, `SSHConnecting`, `Restoring` and `Cleanup`, in this
  -- order.
  pub Runs-succeeded :
      (w w' : World)
      → Runs api stored namespace w w'
      → is_initial (stored w).phase ≡ true
      → (stored w').phase ≡ succeeded
      → Visits api stored namespace
          (hotplugging ∷ waiting_for_attachment ∷ ssh_connecting ∷ restoring ∷ cleanup ∷ succeeded
            ∷ [])
          w
          w'
  Runs-succeeded w w' r start e = Visits-before _ _ _ to_waiting refl w w' start (
      Visits-before _ _ _ to_ssh_connecting refl w w' start (
        Visits-before _ _ _ to_restoring refl w w' start (
          Visits-before _ _ _ to_cleanup refl w w' start
            (Visits-before _ _ _ to_succeeded refl w w' start (visit r e (rest (here w')))))))
