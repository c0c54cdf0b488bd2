-- ===== src/Tests/Provisioning.antt =====
-- The operator's resources, on a server in memory.
use vm_file_restore_operator.Base.{
  ℕ, ◌≡◌, ◌≢◌, refl, sym, ap, ◌∙◌, [], ◌∷◌, Option, none, some, arith,
}
use vm_file_restore_operator.Base.Texts.{has_suffix}
use vm_file_restore_operator.Errors.{Result, ok}
use vm_file_restore_operator.Types.{Secret}
use vm_file_restore_operator.Monad.{pure, ◌>>=◌, on_result}
use vm_file_restore_operator.Controller.Access.{ssh_auth_private_key}
use vm_file_restore_operator.Resources.{ConfigMap}
use vm_file_restore_operator.Resources.Server.{IsKeyCodec}
use vm_file_restore_operator.Resources.Tar.{mode_of, write_entries, build_tar}
use vm_file_restore_operator.Resources.Ensure.{
  new_config_map, ensure_operator_resources, secret_of, with_tars, create_config_map,
  publish_key_of, create_config_map_from_secret, store_keypair, create_keypair_and_config_map,
  replace_orphan, ensure_both,
}
use vm_file_restore_operator.Resources.Ensure.Safety.{ensure_operator_resources-Keeps}
use vm_file_restore_operator.Resources.Ensure.Pairing.Writes.{Outcome}
use vm_file_restore_operator.Resources.Ensure.Pairing.Provisioned.{
  ensure_operator_resources-Outcome,
}
use vm_file_restore_operator.Resources.Ensure.Settled.{ensure_operator_resources-again}
use vm_file_restore_operator.Resources.Ensure.Recovery.{
  Answers, IsResponsive, HasKey, ensure_operator_resources-ok,
}
use vm_file_restore_operator.Manager.Startup.{ensure_with_retries}
use vm_file_restore_operator.Manager.Startup.Attempts.{
  StartOutcome, ensure_with_retries-ok, ensure_with_retries-StartOutcome,
}
use vm_file_restore_operator.Tests.ResourceServer.{
  Stored, server, here, secret_in, config_map_in, server-IsResourceServer, answer_of, named_in,
  created, created_map, updated_map, deleted_map, contents_only,
}

pub server-IsKeyCodec : IsKeyCodec server
server-IsKeyCodec = record {
  generated = λ w public private block ssh_public made marshalled converted.
      let keys : ◌≡◌ {A = Result (ℕ × ℕ)} (ok (7, 7)) (ok (public, private)) = made in
      let b : ◌≡◌ {A = Result ℕ} (ok private) (ok block) = marshalled in
      let p : ◌≡◌ {A = Result ℕ} (ok public) (ok ssh_public) = converted in
      let pair : ◌≡◌ {A = ℕ × ℕ} (7, 7) (public, private) = cc in
      let private_key : 7 ≡ private = ap (λ (x : ℕ × ℕ). x.1) pair in
      let public_key : 7 ≡ public = ap (λ (x : ℕ × ℕ). x.0) pair in
      (block, refl, sym (cc (b)) ∙ sym private_key ∙ public_key ∙ cc (p));
}

abbrev nothing : Stored
nothing = record { secret = none; config_map = none }

-- A secret with the key 5, which was made before; its config map is gone.
abbrev lost_map : Stored
lost_map = record { secret = some (secret_of (5 ∷ [])); config_map = none }

ensure_operator_resources-Outcome_example :
    Outcome server "file-restore" secret_in config_map_in server-IsResourceServer
      (ensure_operator_resources server "file-restore" nothing).0
      (ensure_operator_resources server "file-restore" nothing).1
ensure_operator_resources-Outcome_example =
    ensure_operator_resources-Outcome server "file-restore" secret_in config_map_in
      server-IsResourceServer server-IsKeyCodec nothing tt

ensure_operator_resources-Keeps_example :
    secret_in (ensure_operator_resources server "file-restore" lost_map).1
    ≡ some (secret_of (5 ∷ []))
ensure_operator_resources-Keeps_example =
    ensure_operator_resources-Keeps server "file-restore" secret_in config_map_in
      server-IsResourceServer (secret_of (5 ∷ [])) lost_map refl

abbrev provisioned : Stored
provisioned = (ensure_operator_resources server "file-restore" nothing).1

abbrev published : ConfigMap
published = new_config_map "file-restore" "ssh-ed25519 7" (1 ∷ 2 ∷ 1 ∷ 2 ∷ []) (3 ∷ 3 ∷ [])

-- The first run, from nothing.
provides :
    ((ensure_operator_resources server "file-restore" nothing).0 ≡ ok tt)
    × (provisioned.secret ≡ some (secret_of (7 ∷ [])))
    × (config_map_in provisioned ≡ some published)
unfolding ensure_operator_resources ensure_both replace_orphan create_keypair_and_config_map
    store_keypair create_config_map with_tars build_tar write_entries mode_of has_suffix on_result
    pure ◌>>=◌
provides = (refl, refl, refl)

first_run : ensure_operator_resources server "file-restore" nothing ≡ (ok tt, provisioned)
first_run = ap (λ (r : Result (Unit {0})). (r, provisioned)) provides.0

ensure_operator_resources-again_example :
    ensure_operator_resources server "file-restore" provisioned ≡ (ok tt, provisioned)
ensure_operator_resources-again_example =
    ensure_operator_resources-again server "file-restore" secret_in config_map_in
      server-IsResourceServer server-IsKeyCodec nothing provisioned (secret_of (7 ∷ [])) published
      tt first_run (ap answer_of provides.1) (ap answer_of provides.2)

answers : {A : Type 0} (o : Option A) → Answers o (answer_of o)
answers none = refl
answers (some a) = refl

created_where_none :
    (o : Option Secret) (s : Secret) (w : Stored) → o ≡ none → (created o s w).0 ≡ ok tt
created_where_none none s w e = refl
created_where_none (some _) s w e = cc

created_map_where_none :
    (o : Option ConfigMap) (cm : ConfigMap) (w : Stored)
    → named_in here o ≡ none
    → (created_map o cm w).0 ≡ ok tt
created_map_where_none none cm w e = refl
created_map_where_none (some _) cm w e = cc

written_where_some :
    (o : Option ConfigMap) (cm : ConfigMap) (w : Stored)
    → named_in here o ≢ none
    → ((updated_map o cm w).0 ≡ ok tt) × ((deleted_map o w).0 ≡ ok tt)
written_where_some none cm w e = absurd (e refl)
written_where_some (some _) cm w e = (refl, refl)

built :
    (build_tar contents_only server.linux_scripts ("setup.sh" ∷ "filerestore.sh" ∷ [])
      ≡ ok (1 ∷ 2 ∷ 1 ∷ 2 ∷ []))
    × (build_tar contents_only server.windows_scripts ("setup.bat" ∷ "filerestore.bat" ∷ [])
        ≡ ok (3 ∷ 3 ∷ []))
unfolding build_tar write_entries mode_of has_suffix
built = (refl, refl)

server-IsResponsive : IsResponsive server "file-restore" secret_in config_map_in
server-IsResponsive = record {
  get_secret = λ w. answers w.secret;
  get_config_map = λ w. answers (config_map_in w);
  create_secret = λ s w e. created_where_none w.secret s w e;
  create_config_map = λ cm w e. created_map_where_none w.config_map cm w e;
  update_config_map = λ cm w e. (written_where_some w.config_map cm w e).0;
  delete_config_map = λ w e. (written_where_some w.config_map published w e).1;
  linux_tar = 1 ∷ 2 ∷ 1 ∷ 2 ∷ [];
  linux_built = built.0;
  windows_tar = 3 ∷ 3 ∷ [];
  windows_built = built.1;
  generate_key = λ w. (7, 7, refl);
  marshal_private_key = λ n. (n, refl);
  new_public_key = λ n. (n, refl);
}

lost_map-HasKey : (s : Secret) → secret_in lost_map ≡ some s → HasKey server s
lost_map-HasKey s e = record {
  pem = 5 ∷ [];
  signer = 5;
  stored =
      let same : secret_of (5 ∷ []) ≡ s = cc in
      ap (λ (x : Secret). x.values ssh_auth_private_key) (sym same);
  filled = λ x. cc;
  parsed = refl;
}

succeeds : (ensure_operator_resources server "file-restore" lost_map).0 ≡ ok tt
unfolding ensure_operator_resources ensure_both create_config_map_from_secret publish_key_of
    create_config_map with_tars build_tar write_entries mode_of has_suffix on_result pure ◌>>=◌
succeeds = refl

ensure_operator_resources-ok_example :
    (ensure_operator_resources server "file-restore" lost_map).0 ≡ ok tt
ensure_operator_resources-ok_example =
    ensure_operator_resources-ok server "file-restore" secret_in config_map_in
      server-IsResourceServer server-IsResponsive lost_map lost_map-HasKey

ensure_with_retries-ok_example : (ensure_with_retries server "file-restore" lost_map).0 ≡ none
ensure_with_retries-ok_example =
    ensure_with_retries-ok server "file-restore" 0 lost_map (omega arith) succeeds

ensure_with_retries-StartOutcome_example :
    StartOutcome server "file-restore" secret_in config_map_in server-IsResourceServer
      server-IsKeyCodec
      (ensure_with_retries server "file-restore" nothing).0
      (ensure_with_retries server "file-restore" nothing).1
ensure_with_retries-StartOutcome_example =
    ensure_with_retries-StartOutcome server "file-restore" secret_in config_map_in
      server-IsResourceServer server-IsKeyCodec nothing tt
