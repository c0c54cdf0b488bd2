-- ===== src/Resources/Ensure/Pairing/Reads.antt =====
-- What the two reads of `EnsureOperatorResources` show.
use vm_file_restore_operator.Base.{◌≡◌, ◌∙◌, refl, String, Option, none, some, true}
use vm_file_restore_operator.Errors.{Result, ok, err, is_not_found}
use vm_file_restore_operator.Types.{Secret}
use vm_file_restore_operator.Monad.Rules.{Ends}
use vm_file_restore_operator.Resources.{ResourceApi, ConfigMap}
use vm_file_restore_operator.Resources.Server.{IsResourceServer, IsKeyCodec}
use vm_file_restore_operator.Resources.Ensure.{resource_key}
use vm_file_restore_operator.Resources.Ensure.Pairing.Writes.{Consistent}

module _ (api : ResourceApi) (namespace : String) (secret_in : api.World → Option Secret)
    (config_map_in : api.World → Option ConfigMap)
    (server : IsResourceServer api (resource_key namespace) secret_in config_map_in)
    (codec : IsKeyCodec api) where
  open api use {World}

  abbrev pub Agree : World → Type 0
  Agree = Consistent api namespace secret_in config_map_in server

  -- What the two reads show.
  unfoldable pub SeenSecret : Result Secret → World → Type 0
  SeenSecret (ok s) w = secret_in w ≡ some s
  SeenSecret (err e) w = is_not_found e ≡ true → secret_in w ≡ none

  unfoldable pub SeenConfigMap : Result ConfigMap → World → Type 0
  SeenConfigMap (ok cm) w = (config_map_in w ≡ some cm) × (cm.key ≡ resource_key namespace)
  SeenConfigMap (err e) w = is_not_found e ≡ true → config_map_in w ≡ none

  pub record Seen (secret : Result Secret) (cm : Result ConfigMap) (w : World) : Type 0 where
    pub of_secret : SeenSecret secret w
    pub of_config_map : SeenConfigMap cm w
    pub agree : Agree w

  -- After the first read.
  unfoldable pub ReadSecret : Result Secret → World → Type 0
  ReadSecret secret w = SeenSecret secret w × Agree w

  pub read_secret :
      (w : World) (answer : Result Secret)
      → (api.get_secret (resource_key namespace) w).0 ≡ answer
      → Agree w
      → ReadSecret answer (api.get_secret (resource_key namespace) w).1
  unfolding ReadSecret SeenSecret
  read_secret w (ok s) e h = (
    server.get_secret-secret w ∙ server.get_secret_ok w s e,
    rw (server.get_secret-secret w, server.get_secret-config_map w) h,
  )
  read_secret w (err x) e h = (
    λ missing. server.get_secret-secret w ∙ server.get_secret_missing w x e missing,
    rw (server.get_secret-secret w, server.get_secret-config_map w) h,
  )

  SeenSecret-keep :
      (secret : Result Secret) (w w' : World)
      → secret_in w' ≡ secret_in w
      → SeenSecret secret w
      → SeenSecret secret w'
  unfolding SeenSecret
  SeenSecret-keep (ok s) w w' same h = same ∙ h
  SeenSecret-keep (err e) w w' same h = λ missing. same ∙ h missing

  SeenConfigMap-read :
      (w : World) (answer : Result ConfigMap)
      → (api.get_config_map (resource_key namespace) w).0 ≡ answer
      → SeenConfigMap answer (api.get_config_map (resource_key namespace) w).1
  unfolding SeenConfigMap
  SeenConfigMap-read w (ok cm) e =
      let (found, named) = server.get_config_map_ok w cm e in
      (server.get_config_map-config_map w ∙ found, named)
  SeenConfigMap-read w (err x) e =
      λ missing. server.get_config_map-config_map w ∙ server.get_config_map_missing w x e missing

  pub read_both :
      (secret : Result Secret)
      → Ends (ReadSecret secret) (Seen secret) (api.get_config_map (resource_key namespace))
  unfolding ReadSecret
  read_both secret = record {
    at = λ w h. record {
      of_secret =
          SeenSecret-keep secret w _ (server.get_config_map-secret (resource_key namespace) w) h.0;
      of_config_map = SeenConfigMap-read w _ refl;
      agree =
          rw
            (
              server.get_config_map-secret (resource_key namespace) w,
              server.get_config_map-config_map w,
            )
            h.1;
    };
  }
