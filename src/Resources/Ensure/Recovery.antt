-- ===== src/Resources/Ensure/Recovery.antt =====
-- `EnsureOperatorResources` on a server that answers every call.
use vm_file_restore_operator.Base.{
  ◌≡◌, ◌≢◌, ◌∙◌, sym, inl, inr, refl, String, Option, none, some, true, [], ◌∷◌, Bool-cases,
}
use vm_file_restore_operator.Errors.{Result, ok, err, is_not_found}
use vm_file_restore_operator.Types.{Bytes, Secret}
use vm_file_restore_operator.Monad.{pure, ◌>>=◌, on_result}
use vm_file_restore_operator.Controller.Access.{ssh_auth_private_key}
use vm_file_restore_operator.Resources.{ResourceApi, ConfigMap}
use vm_file_restore_operator.Resources.Server.{IsResourceServer}
use vm_file_restore_operator.Resources.Tar.{build_tar}
use vm_file_restore_operator.Resources.Ensure.{
  resource_key, with_tars, create_config_map, publish_key_of, create_config_map_from_secret,
  store_keypair, create_keypair_and_config_map, update_archives, ensure_helper_tars, replace_orphan,
  ensure_both, ensure_operator_resources, has_archives, with_archives,
}

-- The answer to a read of what is there, or is not.
abbrev pub Answers : {A : Type 0} → Option A → Result A → Type 0
Answers (some a) answer = answer ≡ ok a
Answers none (ok a) = ⊥
Answers none (err e) = is_not_found e ≡ true

-- A server on which no call fails without a reason, scripts that are embedded, and keys that can be
-- made and written.
pub record IsResponsive (api : ResourceApi) (namespace : String)
    (secret_in : api.World → Option Secret) (config_map_in : api.World → Option ConfigMap)
    : Type 0 where
  pub get_secret :
      (w : api.World) → Answers (secret_in w) (api.get_secret (resource_key namespace) w).0
  pub get_config_map :
      (w : api.World) → Answers (config_map_in w) (api.get_config_map (resource_key namespace) w).0
  pub create_secret :
      (s : Secret) (w : api.World)
      → secret_in w ≡ none
      → (api.create_secret (resource_key namespace) s w).0 ≡ ok tt
  pub create_config_map :
      (cm : ConfigMap) (w : api.World)
      → config_map_in w ≡ none
      → (api.create_config_map cm w).0 ≡ ok tt
  pub update_config_map :
      (cm : ConfigMap) (w : api.World)
      → config_map_in w ≢ none
      → (api.update_config_map cm w).0 ≡ ok tt
  pub delete_config_map :
      (w : api.World)
      → config_map_in w ≢ none
      → (api.delete_config_map (resource_key namespace) w).0 ≡ ok tt
  pub linux_tar : Bytes
  pub linux_built :
      build_tar api.tar api.linux_scripts ("setup.sh" ∷ "filerestore.sh" ∷ []) ≡ ok linux_tar
  pub windows_tar : Bytes
  pub windows_built :
      build_tar api.tar api.windows_scripts ("setup.bat" ∷ "filerestore.bat" ∷ []) ≡ ok windows_tar
  pub generate_key :
      (w : api.World)
      → (public : api.PublicKey) × (private : api.PrivateKey) × ((api.generate_key w).0
          ≡ ok (public, private))
  pub marshal_private_key :
      (private : api.PrivateKey)
      → (block : api.Block) × (api.marshal_private_key private ≡ ok block)
  pub new_public_key :
      (public : api.PublicKey)
      → (ssh_public : api.SshPublicKey) × (api.new_public_key public ≡ ok ssh_public)

-- A private key that can be read.
pub record HasKey (api : ResourceApi) (s : Secret) : Type 0 where
  pub pem : Bytes
  pub signer : api.Signer
  pub stored : s.values ssh_auth_private_key ≡ some pem
  pub filled : pem ≢ []
  pub parsed : api.parse_private_key pem ≡ ok signer

module _ (api : ResourceApi) (namespace : String) (secret_in : api.World → Option Secret)
    (config_map_in : api.World → Option ConfigMap)
    (server : IsResourceServer api (resource_key namespace) secret_in config_map_in)
    (responsive : IsResponsive api namespace secret_in config_map_in) where
  open api use {World}

  create_config_map-ok :
      (public : String) (w : World)
      → config_map_in w ≡ none
      → (create_config_map api namespace public w).0 ≡ ok tt
  unfolding create_config_map with_tars on_result ◌>>=◌ pure
  create_config_map-ok public w absent =
      rw (responsive.linux_built, on_result)
        (rw (responsive.windows_built, on_result)
          (rw (responsive.create_config_map _ w absent, on_result) refl))

  create_keypair-ok :
      (w : World)
      → secret_in w ≡ none
      → config_map_in w ≡ none
      → (create_keypair_and_config_map api namespace w).0 ≡ ok tt
  unfolding create_keypair_and_config_map store_keypair ◌>>=◌
  create_keypair-ok w no_secret no_config_map =
      let (public, private, made) = responsive.generate_key w in
      let (block, marshalled) = responsive.marshal_private_key private in
      let (ssh_public, converted) = responsive.new_public_key public in
      let w' = (api.generate_key w).1 in
      rw (made, on_result)
        (rw (marshalled, on_result)
          (rw (converted, on_result)
            (rw
              (responsive.create_secret _ w' (server.generate_key-secret w ∙ no_secret), on_result)
              (create_config_map-ok _ _ (
                server.create_secret-config_map _ w'
                ∙ server.generate_key-config_map w
                ∙ no_config_map)))))

  ensure_helper_tars-ok :
      (cm : ConfigMap) (w : World)
      → config_map_in w ≡ some cm
      → (ensure_helper_tars api cm w).0 ≡ ok tt
  unfolding ensure_helper_tars with_tars update_archives on_result ◌>>=◌ pure
  ensure_helper_tars-ok cm w there =
      rw (responsive.linux_built, on_result)
        (rw (responsive.windows_built, on_result)
          (elim (Bool-cases (has_archives responsive.linux_tar responsive.windows_tar cm)) [
            | inl current ↦ rw current refl
            | inr old ↦ rw old (
                rw
                  (
                    responsive.update_config_map
                        (with_archives responsive.linux_tar responsive.windows_tar cm) w (λ e. cc),
                    on_result,
                  )
                  refl)
          ]))

  publish_key_of-ok :
      (pem : Bytes) (signer : api.Signer) (w : World)
      → pem ≢ []
      → api.parse_private_key pem ≡ ok signer
      → config_map_in w ≡ none
      → (publish_key_of api namespace (some pem) w).0 ≡ ok tt
  unfolding publish_key_of on_result
  publish_key_of-ok [] signer w filled parsed absent = absurd (filled refl)
  publish_key_of-ok (b ∷ bs) signer w filled parsed absent =
      rw (parsed, on_result) (create_config_map-ok _ w absent)

  deleted-ok :
      (cm : ConfigMap) (w : World)
      → secret_in w ≡ none
      → cm.key ≡ resource_key namespace
      → (api.delete_config_map (resource_key namespace) w).0 ≡ ok tt
      → (replace_orphan api namespace (ok cm) w).0 ≡ ok tt
  unfolding replace_orphan ◌>>=◌
  deleted-ok cm w no_secret named accepted =
      rw (named, accepted, on_result)
        (create_keypair-ok _ (server.delete_config_map-secret _ w ∙ no_secret)
          (server.delete_config_map w accepted))

  -- Without a secret.
  replace_orphan-ok :
      (there : Option ConfigMap) (answer : Result ConfigMap) (w : World)
      → secret_in w ≡ none
      → config_map_in w ≡ there
      → Answers there answer
      → ((cm : ConfigMap) → answer ≡ ok cm → cm.key ≡ resource_key namespace)
      → (replace_orphan api namespace answer w).0 ≡ ok tt
  unfolding replace_orphan
  replace_orphan-ok none (ok cm) w no_secret absent a named = absurd a
  replace_orphan-ok none (err e) w no_secret absent a named =
      rw a (create_keypair-ok w no_secret absent)
  replace_orphan-ok (some cm) (err e) w no_secret there a named = cc
  replace_orphan-ok (some cm) (ok cm') w no_secret there a named =
      let accepted : (api.delete_config_map (resource_key namespace) w).0 ≡ ok tt =
        responsive.delete_config_map w (λ e. cc) in
      deleted-ok cm' w no_secret (named cm' refl) accepted

  ensure_both-ok :
      (secret : Option Secret) (cm : Option ConfigMap) (s : Result Secret) (c : Result ConfigMap)
      (w : World)
      → secret_in w ≡ secret
      → config_map_in w ≡ cm
      → Answers secret s
      → Answers cm c
      → ((x : Secret) → secret_in w ≡ some x → HasKey api x)
      → ((x : ConfigMap) → c ≡ ok x → x.key ≡ resource_key namespace)
      → (ensure_both api namespace s c w).0 ≡ ok tt
  unfolding ensure_both create_config_map_from_secret
  ensure_both-ok (some s) (some cm) a c w hs hc as_read ac keys named =
      rw (as_read, ac, ensure_both) (ensure_helper_tars-ok cm w hc)
  ensure_both-ok (some s) none a (ok x) w hs hc as_read ac keys named = absurd ac
  ensure_both-ok (some s) none a (err e) w hs hc as_read ac keys named =
      let k : HasKey api s = keys s hs in
      rw (as_read, ensure_both)
        (rw ac (rw k.stored (publish_key_of-ok k.pem k.signer w k.filled k.parsed hc)))
  ensure_both-ok none cm (ok x) c w hs hc as_read ac keys named = absurd as_read
  ensure_both-ok none cm (err e) c w hs hc as_read ac keys named =
      rw as_read (replace_orphan-ok cm c w hs hc ac named)

  -- With a server that keeps IsResourceServer and IsResponsive, the call succeeds from any state in
  -- which the secret, if it is there, has a private key that can be read: whether both objects are
  -- there, one of them, or none.
  pub ensure_operator_resources-ok :
      (w : World)
      → ((s : Secret) → secret_in w ≡ some s → HasKey api s)
      → (ensure_operator_resources api namespace w).0 ≡ ok tt
  unfolding ensure_operator_resources ◌>>=◌
  ensure_operator_resources-ok w keys =
      let k = resource_key namespace in
      let w1 = (api.get_secret k w).1 in
      let s2 : secret_in (api.get_config_map k w1).1 ≡ secret_in w =
        server.get_config_map-secret k w1 ∙ server.get_secret-secret w in
      let c2 : config_map_in (api.get_config_map k w1).1 ≡ config_map_in w1 =
        server.get_config_map-config_map w1 in
      ensure_both-ok (secret_in w) (config_map_in w1) (api.get_secret k w).0
        (api.get_config_map k w1).0 _ s2 c2 (responsive.get_secret w) (responsive.get_config_map w1)
        (λ x e. keys x (sym s2 ∙ e)) (λ x e. (server.get_config_map_ok w1 x e).1)
