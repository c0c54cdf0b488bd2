-- ===== src/Manager/Main/Ends.antt =====
-- How `main` ends.
use vm_file_restore_operator.Base.{◌≡◌, ◌∙◌, refl, String, Option, none, some}
use vm_file_restore_operator.Base.Texts.{is_empty}
use vm_file_restore_operator.Errors.{Error, Result}
use vm_file_restore_operator.Types.{Secret}
use vm_file_restore_operator.Monad.{pure}
use vm_file_restore_operator.Monad.Rules.{
  Ends, Keeps, Ends-bind, Ends-on_result, Ends-if, Ends-on_option, Ends-given,
}
use vm_file_restore_operator.Resources.{ConfigMap}
use vm_file_restore_operator.Resources.Server.{IsResourceServer, IsKeyCodec}
use vm_file_restore_operator.Resources.Ensure.{resource_key}
use vm_file_restore_operator.Resources.Ensure.Pairing.Writes.{Consistent, Provisioned}
use vm_file_restore_operator.Manager.{Flags, ManagerApi, ManagerOptions}
use vm_file_restore_operator.Manager.Startup.{ensure_with_retries}
use vm_file_restore_operator.Manager.Startup.Attempts.{
  StartOutcome, ensure_with_retries-StartOutcome,
}
use vm_file_restore_operator.Manager.Main.{
  Exit, exited, returned, Step, or_exit, with_cert_watcher, add_if_set, operator_namespace,
  run_manager, set_up, unless_failed, provision_and_set_up, main,
}

module _ (api : ManagerApi) (secret_in : api.resources.World → Option Secret)
    (config_map_in : api.resources.World → Option ConfigMap)
    (server : IsResourceServer api.resources
      (resource_key (operator_namespace api))
      secret_in
      config_map_in)
    (codec : IsKeyCodec api.resources) where
  open api use {Manager, CertWatcher}

  abbrev World : Type 0
  World = api.resources.World

  -- A call that leaves the secret and the config map alone.
  abbrev pub LeavesAlone : {A : Type 0} → Step api A → Type 0
  LeavesAlone m =
      (w : api.resources.World)
      → (secret_in (m w).1 ≡ secret_in w) × (config_map_in (m w).1 ≡ config_map_in w)

  -- The manager and the controllers that it runs do not write the two objects.
  pub record IsQuietManager : Type 0 where
    pub new_cert_watcher : (cert key : String) → LeavesAlone (api.new_cert_watcher cert key)
    pub new_manager : (o : ManagerOptions CertWatcher) → LeavesAlone (api.new_manager o)
    pub add_tls_watcher : (m : Manager) → LeavesAlone (api.add_tls_watcher m)
    pub add_cert_watcher : (m : Manager) (c : CertWatcher) → LeavesAlone (api.add_cert_watcher m c)
    pub new_client : (m : Manager) → LeavesAlone (api.new_client m)
    pub set_up_restore_controller :
        (m : Manager) (namespace : String) → LeavesAlone (api.set_up_restore_controller m namespace)
    pub set_up_operator_controller :
        (m : Manager) (version : String) → LeavesAlone (api.set_up_operator_controller m version)
    pub add_healthz_check : (m : Manager) → LeavesAlone (api.add_healthz_check m)
    pub add_readyz_check : (m : Manager) → LeavesAlone (api.add_readyz_check m)
    pub start : (m : Manager) → LeavesAlone (api.start m)

  abbrev pub Agree : World → Type 0
  Agree = Consistent api.resources (operator_namespace api) secret_in config_map_in server

  abbrev pub IsProvided : World → Type 0
  IsProvided = Provisioned api.resources (operator_namespace api) secret_in config_map_in server

  -- A process that did not report a failure has provided the resources.
  abbrev pub Final : Exit → World → Type 0
  Final (exited code) w = code ≡ 1
  Final returned w = IsProvided w

  Agree-quiet : {A : Type 0} (m : Step api A) → LeavesAlone m → Keeps Agree m
  Agree-quiet m quiet = record { at = λ w h. rw ((quiet w).0, (quiet w).1) h }

  IsProvided-quiet : {A : Type 0} (m : Step api A) → LeavesAlone m → Keeps IsProvided m
  IsProvided-quiet m quiet = record {
    at = λ w h. record {
      secret = h.secret;
      config_map = h.config_map;
      has_secret = (quiet w).0 ∙ h.has_secret;
      has_config_map = (quiet w).1 ∙ h.has_config_map;
      paired = h.paired;
      current = h.current;
    };
  }

  or_exit-Ends :
      {A : Type 0} {P : World → Type 0} (step : Step api (Result A)) (k : A → Step api Exit)
      → Keeps P step
      → ((a : A) → Ends P Final (k a))
      → Ends P Final (or_exit api step k)
  unfolding or_exit pure
  or_exit-Ends step k keeps e =
      Ends-bind step _ keeps λ answer.
        Ends-on_result answer (λ x. pure (exited 1)) k (λ x. record { at = λ w h. refl }) e

  module _ (quiet : IsQuietManager) where
    add_if_set-Ends :
        (m : Manager) (watcher : Option CertWatcher) (k : Step api Exit)
        → Ends IsProvided Final k
        → Ends IsProvided Final (add_if_set api m watcher k)
    unfolding add_if_set
    add_if_set-Ends m watcher k e =
        Ends-on_option watcher k _ e
          (λ w. or_exit-Ends _ _ (IsProvided-quiet _ (quiet.add_cert_watcher m w)) (λ _. e))

    run_manager-Ends : (m : Manager) → Ends IsProvided Final (run_manager api m)
    unfolding run_manager pure
    run_manager-Ends m = or_exit-Ends _ _ (IsProvided-quiet _ (quiet.add_healthz_check m)) λ _.
        or_exit-Ends _ _ (IsProvided-quiet _ (quiet.add_readyz_check m))
          λ _. or_exit-Ends _ _ (IsProvided-quiet _ (quiet.start m)) λ _. record { at = λ w h. h }

    set_up-Ends :
        (m : Manager) (w1 w2 : Option CertWatcher) → Ends IsProvided Final (set_up api m w1 w2)
    unfolding set_up
    set_up-Ends m w1 w2 =
        or_exit-Ends _ _ (IsProvided-quiet _ (quiet.set_up_restore_controller m _)) λ _.
          or_exit-Ends _ _ (IsProvided-quiet _ (quiet.set_up_operator_controller m _))
            λ _. add_if_set-Ends m w1 _ (add_if_set-Ends m w2 _ (run_manager-Ends m))

    abbrev Ensured : Option Error → World → Type 0
    Ensured =
        StartOutcome api.resources (operator_namespace api) secret_in config_map_in server codec

    unless_failed-Ends :
        (answer : Option Error) (k : Step api Exit)
        → Ends IsProvided Final k
        → Ends (Ensured answer) Final (unless_failed api answer k)
    unfolding unless_failed pure
    unless_failed-Ends none k e = e
    unless_failed-Ends (some x) k e = record { at = λ w h. refl }

    provision-Ends :
        (m : Manager) (w1 w2 : Option CertWatcher)
        → Ends Agree Final (provision_and_set_up api m w1 w2)
    unfolding provision_and_set_up
    provision-Ends m w1 w2 =
        let call : Ends Agree Ensured (ensure_with_retries api.resources (operator_namespace api)) =
          record {
            at =
                ensure_with_retries-StartOutcome api.resources (operator_namespace api) secret_in
                  config_map_in server codec;
          } in
        or_exit-Ends _ _ (Agree-quiet _ (quiet.add_tls_watcher m)) λ _.
          or_exit-Ends _ _ (Agree-quiet _ (quiet.new_client m))
            λ _. Ends-given _ _ call (λ answer. unless_failed-Ends answer _ (set_up-Ends m w1 w2))

    with_cert_watcher-Ends :
        (path name key : String) (k : Option CertWatcher → Step api Exit)
        → ((w : Option CertWatcher) → Ends Agree Final (k w))
        → Ends Agree Final (with_cert_watcher api path name key k)
    unfolding with_cert_watcher
    with_cert_watcher-Ends path name key k e =
        Ends-if (is_empty path) _ _ (λ _. e none)
          (λ _. or_exit-Ends _ _ (Agree-quiet _ (quiet.new_cert_watcher _ _)) (λ w. e (some w)))

    -- With a server that keeps IsResourceServer, keys that keep IsKeyCodec, and a manager whose calls
    -- leave the secret and the config map alone, from a state in which the two, where both are there,
    -- agree on the key: main exits with status 1, or it returns and both are there, agree, and the
    -- config map has the archives of this version, whatever the calls answer.
    pub main-Final :
        (flags : Flags) (w : api.resources.World)
        → Agree w
        → Final (main api flags w).0 (main api flags w).1
    unfolding main
    main-Final flags w agree =
        let e : Ends Agree Final (main api flags) = with_cert_watcher-Ends _ _ _ _ λ webhook.
          with_cert_watcher-Ends _ _ _ _ λ metrics.
            or_exit-Ends _ _ (Agree-quiet _ (quiet.new_manager _))
              λ m. provision-Ends m metrics webhook in
        e.at w agree
