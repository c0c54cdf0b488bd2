-- ===== src/Tests/ResourceServer.antt =====
-- A server in memory with the operator's two resources.
use vm_file_restore_operator.Base.{
  ℕ, ◌≡◌, ◌⊎◌, refl, sym, ap, inl, inr, ◌==◌, [], ◌∷◌, ◌++◌, Option, none, some, if◌then◌else◌,
}
use vm_file_restore_operator.Errors.{Error, Result, ok, err, not_found, already_exists, plain}
use vm_file_restore_operator.Types.{Key, Bytes, Secret}
use vm_file_restore_operator.Resources.{ResourceApi, ConfigMap, TarWriter}
use vm_file_restore_operator.Resources.Server.{IsResourceServer}
use vm_file_restore_operator.Resources.Ensure.{resource_key}

abbrev pub failure : Error
failure = record { kind = plain; message = "failed" }

-- An archive that is the contents, one after another.
abbrev pub contents_only : TarWriter
contents_only = record {
  Writer = Bytes;
  new_writer = [];
  write_header = λ w h. ok w;
  write = λ w content. ok (w ++ content);
  close = λ w. ok w;
}

abbrev pub Stored : Type 0
Stored = record { secret : Option Secret; config_map : Option ConfigMap }

abbrev pub missing : Error
missing = record { kind = not_found; message = "not found" }

abbrev pub present : Error
present = record { kind = already_exists; message = "exists" }

abbrev pub answer_of : {A : Type 0} → Option A → Result A
answer_of none = err missing
answer_of (some a) = ok a

abbrev pub parsed : Bytes → Result ℕ
parsed (n ∷ []) = ok n
parsed _ = err failure

abbrev pub created : Option Secret → Secret → Stored → Result (Unit {0}) × Stored
created none s w = (ok tt, record w { secret = some s })
created (some _) s w = (err present, w)

abbrev pub created_map : Option ConfigMap → ConfigMap → Stored → Result (Unit {0}) × Stored
created_map none cm w = (ok tt, record w { config_map = some cm })
created_map (some _) cm w = (err present, w)

abbrev pub updated_map : Option ConfigMap → ConfigMap → Stored → Result (Unit {0}) × Stored
updated_map (some _) cm w = (ok tt, record w { config_map = some cm })
updated_map none cm w = (err missing, w)

abbrev pub deleted_map : Option ConfigMap → Stored → Result (Unit {0}) × Stored
deleted_map (some _) w = (ok tt, record w { config_map = none })
deleted_map none w = (err missing, w)

abbrev pub named : Key → ConfigMap → ConfigMap
named k cm = record cm { key = k }

abbrev pub named_in : Key → Option ConfigMap → Option ConfigMap
named_in k none = none
named_in k (some cm) = some (named k cm)

abbrev pub here : Key
here = resource_key "file-restore"

-- A key pair is a number, and the one that is generated is 7. Both objects stand under one key.
abbrev pub server : ResourceApi
server = record {
  World = Stored;
  PublicKey = ℕ;
  PrivateKey = ℕ;
  Block = ℕ;
  SshPublicKey = ℕ;
  Signer = ℕ;
  get_secret = λ k w. (answer_of w.secret, w);
  get_config_map = λ k w. (answer_of (named_in here w.config_map), w);
  create_secret = λ k s w. created w.secret s w;
  delete_secret = λ k w. (ok tt, record w { secret = none });
  create_config_map = λ cm w. created_map w.config_map cm w;
  update_config_map = λ cm w. updated_map w.config_map cm w;
  delete_config_map = λ k w. deleted_map w.config_map w;
  generate_key = λ w. (ok (7, 7), w);
  marshal_private_key = λ n. ok n;
  encode_to_memory = λ n. n ∷ [];
  new_public_key = λ n. ok n;
  marshal_authorized_key = λ n. if n == 7 then "ssh-ed25519 7" else "ssh-ed25519";
  parse_private_key = parsed;
  public_key = λ n. n;
  linux_scripts = λ name. ok (1 ∷ 2 ∷ []);
  windows_scripts = λ name. ok (3 ∷ []);
  tar = contents_only;
  sleep = λ n w. (tt, w);
}

abbrev pub secret_in : Stored → Option Secret
secret_in w = w.secret

abbrev pub config_map_in : Stored → Option ConfigMap
config_map_in w = named_in here w.config_map

created-either :
    (o : Option Secret) (s : Secret) (w : Stored)
    → w.secret ≡ o
    → ((created o s w).1.secret ≡ w.secret)
      ⊎ ((w.secret ≡ none) × ((created o s w).1.secret ≡ some s))
created-either none s w e = inr (e, refl)
created-either (some _) s w e = inl refl

created-ok :
    (o : Option Secret) (s : Secret) (w : Stored)
    → (created o s w).0 ≡ ok tt
    → (created o s w).1.secret ≡ some s
created-ok none s w e = refl
created-ok (some _) s w e = cc

created-config_map :
    (o : Option Secret) (s : Secret) (w : Stored) → (created o s w).1.config_map ≡ w.config_map
created-config_map none s w = refl
created-config_map (some _) s w = refl

answer_of-ok : {A : Type 0} (o : Option A) (a : A) → answer_of o ≡ ok a → o ≡ some a
answer_of-ok none a e = cc
answer_of-ok (some b) a e = cc

answer_of-missing : {A : Type 0} (o : Option A) (x : Error) → answer_of o ≡ err x → o ≡ none
answer_of-missing none x e = refl
answer_of-missing (some b) x e = cc

-- A write of the config map.
module _ (cm : ConfigMap) (k : cm.key ≡ here) where
  pub named_self : named here cm ≡ cm
  named_self = rw (sym k) refl

  created_map-either :
      (o : Option ConfigMap) (w : Stored)
      → (config_map_in (created_map o cm w).1 ≡ config_map_in w)
        ⊎ (config_map_in (created_map o cm w).1 ≡ some cm)
  created_map-either none w = inr (rw named_self refl)
  created_map-either (some _) w = inl refl

  created_map-ok :
      (o : Option ConfigMap) (w : Stored)
      → (created_map o cm w).0 ≡ ok tt
      → config_map_in (created_map o cm w).1 ≡ some cm
  created_map-ok none w e = rw named_self refl
  created_map-ok (some _) w e = cc

  updated_map-either :
      (o : Option ConfigMap) (w : Stored)
      → (config_map_in (updated_map o cm w).1 ≡ config_map_in w)
        ⊎ (config_map_in (updated_map o cm w).1 ≡ some cm)
  updated_map-either none w = inl refl
  updated_map-either (some _) w = inr (rw named_self refl)

  updated_map-ok :
      (o : Option ConfigMap) (w : Stored)
      → (updated_map o cm w).0 ≡ ok tt
      → config_map_in (updated_map o cm w).1 ≡ some cm
  updated_map-ok none w e = cc
  updated_map-ok (some _) w e = rw named_self refl

deleted_map-secret : (o : Option ConfigMap) (w : Stored) → (deleted_map o w).1.secret ≡ w.secret
deleted_map-secret none w = refl
deleted_map-secret (some _) w = refl

pub named_key :
    (o : Option ConfigMap) (cm : ConfigMap) → answer_of (named_in here o) ≡ ok cm → cm.key ≡ here
named_key none cm e = cc
named_key (some c) cm e = let k : named here c ≡ cm = cc in ap (λ (x : ConfigMap). x.key) (sym k)

map_write-secret :
    (o : Option ConfigMap) (cm : ConfigMap) (w : Stored)
    → ((created_map o cm w).1.secret ≡ w.secret) × ((updated_map o cm w).1.secret ≡ w.secret)
map_write-secret none cm w = (refl, refl)
map_write-secret (some _) cm w = (refl, refl)

deleted_map-gone :
    (o : Option ConfigMap) (w : Stored)
    → w.config_map ≡ o
    → config_map_in (deleted_map o w).1 ≡ none
deleted_map-gone none w e = rw e refl
deleted_map-gone (some _) w e = refl

pub server-IsResourceServer : IsResourceServer server here secret_in config_map_in
server-IsResourceServer = record {
  get_secret-secret = λ w. refl;
  get_config_map-secret = λ k w. refl;
  create_config_map-secret = λ cm w. (map_write-secret w.config_map cm w).0;
  update_config_map-secret = λ cm w. (map_write-secret w.config_map cm w).1;
  delete_config_map-secret = λ k w. deleted_map-secret w.config_map w;
  generate_key-secret = λ w. refl;
  sleep-secret = λ n w. refl;
  get_secret-config_map = λ w. refl;
  get_config_map-config_map = λ w. refl;
  create_secret-config_map = λ s w. ap (named_in here) (created-config_map w.secret s w);
  generate_key-config_map = λ w. refl;
  sleep-config_map = λ n w. refl;
  get_secret_ok = λ w s e. answer_of-ok w.secret s e;
  get_secret_missing = λ w x e m. answer_of-missing w.secret x e;
  get_config_map_ok = λ w cm e. (answer_of-ok _ cm e, named_key w.config_map cm e);
  get_config_map_missing = λ w x e m. answer_of-missing _ x e;
  create_secret = λ s w. created-either w.secret s w refl;
  create_secret_ok = λ s w e. created-ok w.secret s w e;
  create_config_map = λ cm w k. created_map-either cm k w.config_map w;
  create_config_map_ok = λ cm w k e. created_map-ok cm k w.config_map w e;
  update_config_map = λ cm w k. updated_map-either cm k w.config_map w;
  update_config_map_ok = λ cm w k e. updated_map-ok cm k w.config_map w e;
  delete_config_map = λ w e. deleted_map-gone w.config_map w refl;
  delete_config_map_missing = λ w x e m. deleted_map-gone w.config_map w refl;
}
