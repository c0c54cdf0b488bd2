-- ===== src/Resources/Shared/Steps.antt =====
-- What lasts while other operators work, and the steps that one operator takes.
use vm_file_restore_operator.Base.{◌≡◌, ◌⊎◌, inl, inr, refl, sym, subst, none, some, Option-cases}
use vm_file_restore_operator.Types.{Secret}
use vm_file_restore_operator.Resources.{ResourceApi, ConfigMap}
use vm_file_restore_operator.Resources.Ensure.Pairing.{Both, Both-none, Paired}
use vm_file_restore_operator.Resources.Shared.{Objects, Allowed}

module _ (api : ResourceApi) where
  abbrev pub Agree : Objects → Type 0
  Agree o = Both api o.secret o.config_map

  -- Without a secret there is no config map.
  pub record NoOrphan (o : Objects) : Type 0 where
    pub agree : Agree o
    pub none_there : o.secret ≡ none → o.config_map ≡ none

  pub record Held (s : Secret) (o : Objects) : Type 0 where
    pub held : o.secret ≡ some s
    pub agree : Agree o

  abbrev pub IsStable : (Objects → Type 0) → Type 0
  IsStable P = (o o' : Objects) → Allowed api o o' → P o → P o'

  pub Agree-IsStable : IsStable Agree
  Agree-IsStable o o' a h = a.agree h

  pub Held-IsStable : (s : Secret) → IsStable (Held s)
  Held-IsStable s o o' a h = record { held = a.kept s h.held; agree = a.agree h.agree }

  pub NoOrphan-IsStable : IsStable NoOrphan
  NoOrphan-IsStable o o' a h = record {
    agree = a.agree h.agree;
    none_there = λ gone. elim (Option-cases o.secret) [
      | inl missing ↦ a.unpublished gone (h.none_there missing)
      | inr (s, there) ↦ let e : o'.secret ≡ some s = a.kept s there in cc
    ];
  }

  pub nothing_done : (o o' : Objects) → o' ≡ o → Allowed api o o'
  nothing_done o o' e = record {
    kept = λ s h. rw e h;
    unpublished = λ h g. rw e g;
    agree = λ h. rw e h;
  }

  -- A config map with the key of the secret.
  pub published :
      (s : Secret) (cm : ConfigMap) (o o' : Objects)
      → Paired api s cm
      → Held s o
      → (o' ≡ o) ⊎ (o' ≡ record o { config_map = some cm })
      → Held s o' × Allowed api o o'
  published s cm o o' p h (inl e) = (rw e h, nothing_done o o' e)
  published s cm o o' p h (inr e) =
      let both : Agree (record o { config_map = some cm }) =
        subst (λ x. Both api x (some cm)) (sym h.held) p in
      (
        rw e (record { held = h.held; agree = both }),
        record {
          kept = λ s' there. rw e there;
          unpublished = λ gone _. let x : o'.secret ≡ some s = rw e h.held in cc;
          agree = λ _. rw e both;
        },
      )

  pub removed :
      (o o' : Objects)
      → Agree o
      → (o' ≡ o) ⊎ (o' ≡ record o { config_map = none })
      → Agree o' × Allowed api o o'
  removed o o' h (inl e) = (rw e h, nothing_done o o' e)
  removed o o' h (inr e) = (
    rw e (Both-none api o.secret),
    record {
      kept = λ s there. rw e there;
      unpublished = λ gone there. rw e refl;
      agree = λ _. rw e (Both-none api o.secret);
    },
  )

  -- A secret where there was none.
  pub stored_secret :
      (s : Secret) (o o' : Objects)
      → NoOrphan o
      → (o' ≡ o) ⊎ ((o.secret ≡ none) × (o' ≡ record o { secret = some s }))
      → Agree o' × Allowed api o o'
  stored_secret s o o' h (inl e) = (rw e h.agree, nothing_done o o' e)
  stored_secret s o o' h (inr (absent, e)) =
      let alone : Agree (record o { secret = some s }) =
        subst (Both api (some s)) (sym (h.none_there absent)) (Both-none api (some s)) in
      (
        rw e alone,
        record {
          kept = λ s' there. cc;
          unpublished = λ gone there. rw e there;
          agree = λ _. rw e alone;
        },
      )
