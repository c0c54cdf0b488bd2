-- ===== src/Controller/Runs/Order.antt =====
-- The order of the phases along a run.
use vm_file_restore_operator.Base.{
  ◌≡◌, ◌<◌, ◌⊎◌, inl, inr, refl, sym, subst, ◌∙◌, ap, String, ℕ, true, arith,
}
use vm_file_restore_operator.Types.{
  Status, RestorePhase, unset, new, init, hotplugging, waiting_for_attachment, ssh_connecting,
  restoring, volume_ready, cleanup, succeeded, failed, other,
}
use vm_file_restore_operator.Api.{Api}
use vm_file_restore_operator.Server.{IsServer}
use vm_file_restore_operator.Controller.Graph.{
  is_settled, ◌⟶◌, Moves, may_fail, accept_unset, accept_new, accept_init, plug, attach, connect,
  mount, copy, finish, give_up,
}
use vm_file_restore_operator.Controller.Persistence.Reconciling.{reconcile-Moves_seen}
use vm_file_restore_operator.Controller.Runs.{Step, Runs, reconciled, outside, here, after}
use vm_file_restore_operator.Controller.Bounds.Steps.{InRange}
use vm_file_restore_operator.Controller.Bounds.Reconciling.{reconcile-InRange}

-- How far a restore has come.
rank : RestorePhase → ℕ
rank hotplugging = 1
rank waiting_for_attachment = 2
rank ssh_connecting = 3
rank restoring = 4
rank volume_ready = 5
rank cleanup = 5
rank succeeded = 6
rank failed = 6
rank _ = 0

abbrev Forward : RestorePhase → RestorePhase → Type 0
Forward p q = (q ≡ p) ⊎ (rank p < rank q)

may_fail-rank : (p : RestorePhase) → may_fail p ≡ true → rank p < 6
unfolding rank
may_fail-rank unset h = omega arith
may_fail-rank new h = omega arith
may_fail-rank init h = omega arith
may_fail-rank hotplugging h = omega arith
may_fail-rank waiting_for_attachment h = omega arith
may_fail-rank ssh_connecting h = omega arith
may_fail-rank restoring h = omega arith
may_fail-rank volume_ready h = cc
may_fail-rank cleanup h = omega arith
may_fail-rank succeeded h = cc
may_fail-rank failed h = cc
may_fail-rank (other s) h = omega arith

⟶-rank : (p q : RestorePhase) → p ⟶ q → rank p < rank q
unfolding rank
⟶-rank _ _ accept_unset = omega arith
⟶-rank _ _ accept_new = omega arith
⟶-rank _ _ accept_init = omega arith
⟶-rank _ _ plug = omega arith
⟶-rank _ _ attach = omega arith
⟶-rank _ _ connect = omega arith
⟶-rank _ _ mount = omega arith
⟶-rank _ _ copy = omega arith
⟶-rank _ _ finish = omega arith
⟶-rank p _ (give_up h) = may_fail-rank p h

Moves-Forward : (p q : RestorePhase) → Moves p q → Forward p q
Moves-Forward p q (inl same) = inl same
Moves-Forward p q (inr e) = inr (⟶-rank p q e)

Forward-trans : (p q r : RestorePhase) → Forward p q → Forward q r → Forward p r
Forward-trans p q r (inl x) (inl y) = inl (y ∙ x)
Forward-trans p q r (inl x) (inr y) = inr (rw (sym x) y)
Forward-trans p q r (inr x) (inl y) = inr (rw y x)
Forward-trans p q r (inr x) (inr y) = inr (omega arith)

-- No edge leaves the final phases, nor `VolumeReady`, the last of the manual mode.
not-settled_⟶ : (p q : RestorePhase) → p ⟶ q → ¬ (is_settled p ≡ true)
not-settled_⟶ _ _ accept_unset h = cc
not-settled_⟶ _ _ accept_new h = cc
not-settled_⟶ _ _ accept_init h = cc
not-settled_⟶ _ _ plug h = cc
not-settled_⟶ _ _ attach h = cc
not-settled_⟶ _ _ connect h = cc
not-settled_⟶ _ _ mount h = cc
not-settled_⟶ _ _ copy h = cc
not-settled_⟶ _ _ finish h = cc
not-settled_⟶ p _ (give_up k) h = cc

module _ (api : Api) (stored : api.World → Status) (server : IsServer api stored)
    (namespace : String) where
  open api use {World}

  pub Step-Moves :
      (w w' : World) → Step api stored namespace w w' → Moves (stored w).phase (stored w').phase
  Step-Moves _ _ (reconciled k w sees) = reconcile-Moves_seen api stored server namespace k w sees
  Step-Moves _ _ (outside w w' e) = inl (ap (λ st. st.phase) e)

  Runs-Forward :
      (w w' : World) → Runs api stored namespace w w' → Forward (stored w).phase (stored w').phase
  Runs-Forward _ _ (here w) = inl refl
  Runs-Forward w w' (after {m = m} s r) =
      Forward-trans _ _ _ (Moves-Forward _ _ (Step-Moves w m s)) (Runs-Forward m w' r)

  -- With a server that keeps `IsServer`, along a sequence of reconciliations, each of which reads the
  -- status as it is stored, a stored phase that has been left is not entered again: where the phase
  -- at the end is the one at the start, it was that at every point between.
  pub Runs-never_back :
      (w m w' : World)
      → Runs api stored namespace w m
      → Runs api stored namespace m w'
      → (stored w').phase ≡ (stored w).phase
      → (stored m).phase ≡ (stored w).phase
  Runs-never_back w m w' r r' e = elim (Runs-Forward w m r) [
    | inl same ↦ same
    | inr up ↦ elim (Runs-Forward m w' r') [
      | inl same ↦ sym same ∙ e
      | inr further ↦
          let k : rank (stored w').phase ≡ rank (stored w).phase = ap rank e in absurd (omega arith)
    ]
  ]

  pub Step-settled :
      (w w' : World)
      → Step api stored namespace w w'
      → is_settled (stored w).phase ≡ true
      → (stored w').phase ≡ (stored w).phase
  Step-settled w w' s h = elim (Step-Moves w w' s) [
    | inl same ↦ same
    | inr e ↦ absurd (not-settled_⟶ _ _ e h)
  ]

  -- With a server that keeps `IsServer`, a restore that has reached `VolumeReady`, `Succeeded` or
  -- `Failed` stays in that phase along every sequence of reconciliations, each of which reads the
  -- status as it is stored.
  pub Runs-settled :
      (w w' : World)
      → Runs api stored namespace w w'
      → is_settled (stored w).phase ≡ true
      → (stored w').phase ≡ (stored w).phase
  Runs-settled _ _ (here w) h = refl
  Runs-settled w w' (after {m = m} s r) h =
      let e : (stored m).phase ≡ (stored w).phase = Step-settled w m s h in
      Runs-settled m w' r (rw e h) ∙ e

  -- With a server that keeps `IsServer`, along every sequence of reconciliations, each of which reads
  -- the status as it is stored, that starts with the stored retry counters within their limits, 60
  -- and 24, they stay within them.
  pub Runs-InRange :
      (w w' : World)
      → Runs api stored namespace w w'
      → InRange 60 24 (stored w)
      → InRange 60 24 (stored w')
  Runs-InRange _ _ (here w) h = h
  Runs-InRange _ w' (after {m = m} (reconciled k w sees) r) h =
      Runs-InRange m w' r (reconcile-InRange api stored server namespace k w sees h)
  Runs-InRange _ w' (after {m = m} (outside w _ e) r) h =
      Runs-InRange m w' r (subst (InRange 60 24) (sym e) h)
