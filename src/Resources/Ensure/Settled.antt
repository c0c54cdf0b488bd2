-- ===== src/Resources/Ensure/Settled.antt =====
-- A call of `EnsureOperatorResources` after one that succeeded.
use vm_file_restore_operator.Base.{◌≡◌, ◌∙◌, sym, subst, refl, String, Option, some}
use vm_file_restore_operator.Errors.{ok}
use vm_file_restore_operator.Types.{Secret}
use vm_file_restore_operator.Monad.{pure, ◌>>=◌, on_result}
use vm_file_restore_operator.Resources.{ResourceApi, ConfigMap}
use vm_file_restore_operator.Resources.Server.{IsResourceServer, IsKeyCodec}
use vm_file_restore_operator.Resources.Ensure.{
  resource_key, with_tars, has_archives, ensure_helper_tars, ensure_both, ensure_operator_resources,
}
use vm_file_restore_operator.Resources.Ensure.Pairing.{Current, bytes_equal_refl}
use vm_file_restore_operator.Resources.Ensure.Pairing.Writes.{Consistent, Provisioned, Outcome}
use vm_file_restore_operator.Resources.Ensure.Pairing.Provisioned.{
  ensure_operator_resources-Outcome,
}

-- A config map with the archives of this version is left alone.
ensure_helper_tars-idle :
    (api : ResourceApi) (cm : ConfigMap) (w : api.World)
    → Current api cm
    → ensure_helper_tars api cm w ≡ (ok tt, w)
unfolding ensure_helper_tars with_tars on_result has_archives pure
ensure_helper_tars-idle api cm w c =
    rw (c.linux_built, on_result)
      (rw (c.windows_built, on_result)
        (rw (c.linux_entry, bytes_equal_refl c.linux_tar)
          (rw (c.windows_entry, bytes_equal_refl c.windows_tar) refl)))

module _ (api : ResourceApi) (namespace : String) (secret_in : api.World → Option Secret)
    (config_map_in : api.World → Option ConfigMap)
    (server : IsResourceServer api (resource_key namespace) secret_in config_map_in)
    (codec : IsKeyCodec api) where
  open api use {World}

  only_reads :
      (w : World) (s : Secret) (cm : ConfigMap)
      → (api.get_secret (resource_key namespace) w).0 ≡ ok s
      → (api.get_config_map
          (resource_key namespace)
          (api.get_secret (resource_key namespace) w).1).0
        ≡ ok cm
      → Current api cm
      → ensure_operator_resources api namespace w ≡ (
        ok tt,
        (api.get_config_map
            (resource_key namespace)
            (api.get_secret (resource_key namespace) w).1).1,
      )
  unfolding ensure_operator_resources ◌>>=◌ ensure_both
  only_reads w s cm es ec c = rw (es, ec, ensure_both) (ensure_helper_tars-idle api cm _ c)

  -- With a server that keeps IsResourceServer and keys that keep IsKeyCodec, from a state in which
  -- the secret and the config map, where both are there, agree on the key: after a call without an
  -- error, a further call that can read both objects succeeds and does nothing but read them.
  pub ensure_operator_resources-again :
      (w w' : World) (s : Secret) (cm : ConfigMap)
      → Consistent api namespace secret_in config_map_in server w
      → ensure_operator_resources api namespace w ≡ (ok tt, w')
      → (api.get_secret (resource_key namespace) w').0 ≡ ok s
      → (api.get_config_map
          (resource_key namespace)
          (api.get_secret (resource_key namespace) w').1).0
        ≡ ok cm
      → ensure_operator_resources api namespace w' ≡ (
        ok tt,
        (api.get_config_map
            (resource_key namespace)
            (api.get_secret (resource_key namespace) w').1).1,
      )
  ensure_operator_resources-again w w' s cm agree done es ec =
      let p : Provisioned api namespace secret_in config_map_in server w' =
        subst (λ r. Outcome api namespace secret_in config_map_in server r.0 r.1) done
          (ensure_operator_resources-Outcome api namespace secret_in config_map_in server codec w
            agree) in
      let seen : config_map_in w' ≡ some cm =
        sym (server.get_secret-config_map w')
        ∙ (server.get_config_map_ok (api.get_secret (resource_key namespace) w').1 cm ec).0 in
      let same : p.config_map ≡ cm = cc (p.has_config_map, seen) in
      only_reads w' s cm es ec (subst (Current api) same p.current)
