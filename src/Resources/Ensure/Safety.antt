-- ===== src/Resources/Ensure/Safety.antt =====
-- What `EnsureOperatorResources` does to a secret that is there.
use vm_file_restore_operator.Base.{◌≡◌, ◌∙◌, inl, inr, String, Option, none, some, [], ◌∷◌}
use vm_file_restore_operator.Errors.{Result, ok, err}
use vm_file_restore_operator.Types.{Bytes, Secret}
use vm_file_restore_operator.Monad.{Action}
use vm_file_restore_operator.Monad.Rules.{Keeps, ends_rules}
use vm_file_restore_operator.Resources.{ResourceApi, ConfigMap}
use vm_file_restore_operator.Resources.Server.{IsResourceServer}
use vm_file_restore_operator.Resources.Ensure.{
  resource_key, with_tars, create_config_map, publish_key_of, create_config_map_from_secret,
  store_keypair, create_keypair_and_config_map, update_again, update_archives, ensure_helper_tars,
  replace_orphan, ensure_both, ensure_operator_resources,
}

module _ (api : ResourceApi) (namespace : String) (secret_in : api.World → Option Secret)
    (config_map_in : api.World → Option ConfigMap)
    (server : IsResourceServer api (resource_key namespace) secret_in config_map_in)
    (s : Secret) where
  open api use {World}

  abbrev There : World → Type 0
  There w = secret_in w ≡ some s

  -- A call that leaves the secret alone.
  quiet :
      {A : Type 0} (m : Action World A)
      → ((w : World) → secret_in (m w).1 ≡ secret_in w)
      → Keeps There m
  quiet m same = record { at = λ w h. same w ∙ h }

  create_secret-Keeps : (s' : Secret) → Keeps There (api.create_secret (resource_key namespace) s')
  create_secret-Keeps s' = record {
    at = λ w h. elim (server.create_secret s' w) [ inl same ↦ same ∙ h | inr (absent, _) ↦ cc ];
  }

  create_config_map-Keeps : (public : String) → Keeps There (create_config_map api namespace public)
  unfolding create_config_map with_tars
  create_config_map-Keeps public =
      search (ends_rules, quiet, server.create_config_map-secret) depth 12

  publish_key_of-Keeps : (pem : Option Bytes) → Keeps There (publish_key_of api namespace pem)
  unfolding publish_key_of
  publish_key_of-Keeps none = search ends_rules
  publish_key_of-Keeps (some []) = search ends_rules
  publish_key_of-Keeps (some (b ∷ bs)) = search (ends_rules, create_config_map-Keeps)

  create_keypair-Keeps : Keeps There (create_keypair_and_config_map api namespace)
  unfolding create_keypair_and_config_map store_keypair
  create_keypair-Keeps =
      search
        (
          ends_rules, quiet, server.generate_key-secret, create_secret-Keeps,
          create_config_map-Keeps,
        )
        depth 14

  replace_orphan-Keeps : (cm : Result ConfigMap) → Keeps There (replace_orphan api namespace cm)
  unfolding replace_orphan
  replace_orphan-Keeps (err e) = search (ends_rules, create_keypair-Keeps)
  replace_orphan-Keeps (ok cm) =
      search (ends_rules, quiet, server.delete_config_map-secret, create_keypair-Keeps) depth 10

  ensure_helper_tars-Keeps : (cm : ConfigMap) → Keeps There (ensure_helper_tars api cm)
  unfolding ensure_helper_tars with_tars update_archives update_again
  ensure_helper_tars-Keeps cm =
      search (ends_rules, quiet, server.update_config_map-secret, server.get_config_map-secret)
        depth 20

  ensure_both-Keeps :
      (secret : Result Secret) (cm : Result ConfigMap)
      → Keeps There (ensure_both api namespace secret cm)
  unfolding ensure_both create_config_map_from_secret
  ensure_both-Keeps (ok secret) (ok cm) = ensure_helper_tars-Keeps cm
  ensure_both-Keeps (ok secret) (err e) = search (ends_rules, publish_key_of-Keeps)
  ensure_both-Keeps (err e) cm = search (ends_rules, replace_orphan-Keeps)

  -- With a server that keeps IsResourceServer, a secret that is there is never changed or removed,
  -- whatever the calls answer.
  pub ensure_operator_resources-Keeps :
      (w : World)
      → secret_in w ≡ some s
      → secret_in (ensure_operator_resources api namespace w).1 ≡ some s
  unfolding ensure_operator_resources
  ensure_operator_resources-Keeps =
      let k : Keeps There (ensure_operator_resources api namespace) =
        search
          (
            ends_rules, quiet, server.get_secret-secret, server.get_config_map-secret,
            ensure_both-Keeps,
          )
          depth 8 in
      k.at
