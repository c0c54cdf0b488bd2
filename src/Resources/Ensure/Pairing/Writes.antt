-- ===== src/Resources/Ensure/Pairing/Writes.antt =====
-- The writes of `EnsureOperatorResources`, on the pairing of the two objects.
use vm_file_restore_operator.Base.{
  ◌≡◌, ◌∙◌, subst, ◌⊎◌, inl, inr, refl, String, Option, none, some, true,
}
use vm_file_restore_operator.Errors.{Error, Result, ok, err}
use vm_file_restore_operator.Types.{Bytes, Secret}
use vm_file_restore_operator.Monad.{pure, on_result}
use vm_file_restore_operator.Monad.Rules.{Ends, Ends-given, Ends-on_answer}
use vm_file_restore_operator.Resources.{ResourceApi, ConfigMap}
use vm_file_restore_operator.Resources.Server.{IsResourceServer}
use vm_file_restore_operator.Resources.Ensure.{
  resource_key, with_tars, create_config_map, refuse, new_config_map, with_archives, has_archives,
  Ensured,
}
use vm_file_restore_operator.Resources.Ensure.Pairing.{
  Opens, Paired, Current, Both, Both-none, has_archives-Current, with_archives-Current, new-Current,
  new-Paired,
}

module _ (api : ResourceApi) (namespace : String) (secret_in : api.World → Option Secret)
    (config_map_in : api.World → Option ConfigMap)
    (server : IsResourceServer api (resource_key namespace) secret_in config_map_in) where
  open api use {World}

  -- Where both are there, the config map has the key of the secret.
  abbrev pub Consistent : World → Type 0
  Consistent w = Both api (secret_in w) (config_map_in w)

  -- Both are there, with one key, and with the archives of this version.
  pub record Provisioned (w : World) : Type 0 where
    pub secret : Secret
    pub config_map : ConfigMap
    pub has_secret : secret_in w ≡ some secret
    pub has_config_map : config_map_in w ≡ some config_map
    pub paired : Paired api secret config_map
    pub current : Current api config_map

  -- Where the secret is `s`.
  pub record Held (s : Secret) (w : World) : Type 0 where
    pub held : secret_in w ≡ some s
    pub consistent : Consistent w

  -- At the end: with an error the two still agree, without one all is provided.
  abbrev pub Outcome : Result (Unit {0}) → World → Type 0
  Outcome (ok _) w = Provisioned w
  Outcome (err _) w = Consistent w

  abbrev pub Written : Secret → Result (Unit {0}) → World → Type 0
  Written s (ok _) w = Provisioned w
  Written s (err _) w = Held s w

  pub refuse-Outcome :
      {P : World → Type 0} (context : String) (e : Error)
      → ((w : World) → P w → Consistent w)
      → Ends P Outcome (refuse api context e)
  unfolding pure
  refuse-Outcome context e k = record { at = λ w h. k w h }

  pub done-Outcome : Ends Provisioned Outcome (pure (ok tt))
  unfolding pure
  done-Outcome = record { at = λ w h. h }

  Consistent-both :
      (s : Secret) (cm : ConfigMap) (w : World)
      → secret_in w ≡ some s
      → config_map_in w ≡ some cm
      → Paired api s cm
      → Consistent w
  Consistent-both s cm w hs hc p = rw (hs, hc) p

  pub Paired-of :
      (s : Secret) (cm : ConfigMap) (w : World)
      → Held s w
      → config_map_in w ≡ some cm
      → Paired api s cm
  Paired-of s cm w h hc =
      subst (λ c. Both api (some s) c) hc
        (subst (λ x. Both api x (config_map_in w)) h.held h.consistent)

  pub without_secret : (w : World) → secret_in w ≡ none → Consistent w
  without_secret w e = rw e tt

  pub without_config_map : (w : World) → config_map_in w ≡ none → Consistent w
  without_config_map w e = rw e (Both-none api (secret_in w))

  -- A write of the config map `cm`, which has the key of `s` and the archives.
  module _ (s : Secret) (cm : ConfigMap) (p : Paired api s cm) (c : Current api cm) where
    wrote :
        (w w' : World) (answer : Result (Unit {0}))
        → Held s w
        → secret_in w' ≡ secret_in w
        → (config_map_in w' ≡ config_map_in w) ⊎ (config_map_in w' ≡ some cm)
        → (answer ≡ ok tt → config_map_in w' ≡ some cm)
        → Written s answer w'
    wrote w w' (ok _) h same either done = record {
      secret = s;
      config_map = cm;
      has_secret = same ∙ h.held;
      has_config_map = done refl;
      paired = p;
      current = c;
    }
    wrote w w' (err _) h same either done = record {
      held = same ∙ h.held;
      consistent = elim either [
        | inl old ↦ rw (same, old) h.consistent
        | inr new ↦ Consistent-both s cm w' (same ∙ h.held) new p
      ];
    }

    create-Written :
        cm.key ≡ resource_key namespace → Ends (Held s) (Written s) (api.create_config_map cm)
    create-Written e = record {
      at = λ w h.
          wrote w _ (api.create_config_map cm w).0 h (server.create_config_map-secret cm w)
            (server.create_config_map cm w e) (server.create_config_map_ok cm w e);
    }

    pub update-Written :
        cm.key ≡ resource_key namespace → Ends (Held s) (Written s) (api.update_config_map cm)
    update-Written e = record {
      at = λ w h.
          wrote w _ (api.update_config_map cm w).0 h (server.update_config_map-secret cm w)
            (server.update_config_map cm w e) (server.update_config_map_ok cm w e);
    }

  pub Written-Outcome :
      (s : Secret) (context : String) (answer : Result (Unit {0}))
      → Ends (Written s answer) Outcome (on_result answer (refuse api context) (λ _. pure (ok tt)))
  unfolding on_result
  Written-Outcome s context (ok _) = done-Outcome
  Written-Outcome s context (err e) = refuse-Outcome context e (λ w h. h.consistent)

  -- The archives, and what they were built from.
  pub with_tars-Outcome :
      {P : World → Type 0} (k : Bytes → Bytes → Ensured api)
      → ((w : World) → P w → Consistent w)
      → ((l r : Bytes)
          → ((cm : ConfigMap) → has_archives l r cm ≡ true → Current api cm)
          → ((cm : ConfigMap) → Current api (with_archives l r cm))
          → ((public : String) → Current api (new_config_map namespace public l r))
          → Ends P Outcome (k l r))
      → Ends P Outcome (with_tars api k)
  unfolding with_tars
  with_tars-Outcome k consistent each =
      Ends-on_answer _ _ _ (λ e _. refuse-Outcome _ e consistent)
        λ l built.
          Ends-on_answer _ _ _ (λ e _. refuse-Outcome _ e consistent)
            λ r built'.
              each l r (has_archives-Current api l r built built')
                (with_archives-Current api l r built built')
                (new-Current api l r built built' namespace)

  pub create_config_map-Outcome :
      (s : Secret) (public : String)
      → Opens api s public
      → Ends (Held s) Outcome (create_config_map api namespace public)
  unfolding create_config_map
  create_config_map-Outcome s public opens =
      with_tars-Outcome _ (λ w h. h.consistent)
        λ l r found written new.
          Ends-given _ _
            (create-Written s (new_config_map namespace public l r)
              (new-Paired api l r s namespace public opens) (new public) refl)
            (Written-Outcome s _)
