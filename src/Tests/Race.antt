-- ===== src/Tests/Race.antt =====
-- Two operators that start together: the other one is first to store its key pair.
use vm_file_restore_operator.Base.{
  ℕ, ◌≡◌, inl, inr, refl, sym, ap, ◌∙◌, List, [], ◌∷◌, Option, none, some,
}
use vm_file_restore_operator.Errors.{Result, ok, err, wrap}
use vm_file_restore_operator.Types.{Secret}
use vm_file_restore_operator.Monad.{pure, ◌>>=◌, on_result}
use vm_file_restore_operator.Resources.{ResourceApi, ConfigMap}
use vm_file_restore_operator.Resources.Server.{IsKeyCodec}
use vm_file_restore_operator.Resources.Ensure.{
  ensure_operator_resources, ensure_both, replace_orphan, create_keypair_and_config_map,
  store_keypair, secret_of, new_config_map,
}
use vm_file_restore_operator.Resources.Ensure.Pairing.{Both, Paired, new-Paired}
use vm_file_restore_operator.Resources.Shared.{
  Objects, Allowed, Call, Reads, ReadsSecret, ReadsConfigMap, CreatesSecret, Writes, Deletes,
  IsSharedServer,
}
use vm_file_restore_operator.Resources.Shared.Steps.{nothing_done}
use vm_file_restore_operator.Resources.Shared.Calls.{AllAllowed}
use vm_file_restore_operator.Resources.Shared.Interleaved.{ensure_operator_resources-AllAllowed}
use vm_file_restore_operator.Tests.ResourceServer.{
  Stored, server, here, named_in, named_self, named_key, answer_of, present, created, created_map,
  updated_map, deleted_map,
}

abbrev view : Stored → Objects
view st = record { secret = st.secret; config_map = named_in here st.config_map }

abbrev Busy : Type 0
Busy = record { stored : Stored; own : List (Objects × Objects) }

-- The other operator, then the call, which is recorded.
abbrev busy : {A : Type 0} → (Stored → Stored) → (Stored → A × Stored) → Busy → A × Busy
busy other f w =
    let st = other w.stored in
    let (a, st') = f st in (a, record { stored = st'; own = (view st, view st') ∷ w.own })

abbrev rests : Stored → Stored
rests st = st

abbrev its_map : ConfigMap
its_map = new_config_map "file-restore" "ssh-ed25519" (1 ∷ []) (2 ∷ [])

abbrev if_empty : Option Secret → Option ConfigMap → Stored → Stored
if_empty none none st = record { secret = some (secret_of (9 ∷ [])); config_map = some its_map }
if_empty _ _ st = st

-- Where neither object is there, the other operator makes both.
abbrev makes_both : Stored → Stored
makes_both st = if_empty st.secret st.config_map st

abbrev shared : ResourceApi
shared = record {
  World = Busy;
  PublicKey = ℕ;
  PrivateKey = ℕ;
  Block = ℕ;
  SshPublicKey = ℕ;
  Signer = ℕ;
  get_secret = λ k. busy rests (server.get_secret k);
  get_config_map = λ k. busy rests (server.get_config_map k);
  create_secret = λ k s. busy makes_both (server.create_secret k s);
  delete_secret = λ k. busy rests (server.delete_secret k);
  create_config_map = λ cm. busy rests (server.create_config_map cm);
  update_config_map = λ cm. busy rests (server.update_config_map cm);
  delete_config_map = λ k. busy rests (server.delete_config_map k);
  generate_key = busy rests server.generate_key;
  marshal_private_key = server.marshal_private_key;
  encode_to_memory = server.encode_to_memory;
  new_public_key = server.new_public_key;
  marshal_authorized_key = server.marshal_authorized_key;
  parse_private_key = server.parse_private_key;
  public_key = server.public_key;
  linux_scripts = server.linux_scripts;
  windows_scripts = server.windows_scripts;
  tar = server.tar;
  sleep = λ n w. (tt, w);
}

abbrev objects : Busy → Objects
objects w = view w.stored

abbrev own : Busy → List (Objects × Objects)
own w = w.own

busy-Call :
    {A : Type 0} (other : Stored → Stored) (f : Stored → A × Stored)
    (Step : A → Objects → Objects → Type 0)
    → ((st : Stored) → Allowed shared (view st) (view (other st)))
    → ((st : Stored) → Step (f st).0 (view st) (view (f st).1))
    → (w : Busy) → Call shared here objects own (Step (busy other f w).0) w (busy other f w).1
busy-Call other f Step allowed step w = record {
  before = view (other w.stored);
  after = view (f (other w.stored)).1;
  meanwhile = allowed w.stored;
  step = step (other w.stored);
  since = nothing_done shared _ _ refl;
  logged = refl;
}

its_map-Paired : Paired shared (secret_of (9 ∷ [])) its_map
its_map-Paired =
    new-Paired shared (1 ∷ []) (2 ∷ []) _ "file-restore" _
      (record { pem = 9 ∷ []; signer = 9; stored = refl; parsed = refl; published = refl })

rests-Allowed : (st : Stored) → Allowed shared (view st) (view st)
rests-Allowed st = nothing_done shared _ _ refl

if_empty-Allowed :
    (s : Option Secret) (cm : Option ConfigMap) (st : Stored)
    → st.secret ≡ s
    → st.config_map ≡ cm
    → Allowed shared (view st) (view (if_empty s cm st))
if_empty-Allowed none none st a b = record {
  kept = λ s there. cc;
  unpublished = λ gone there. cc;
  agree = λ _. its_map-Paired;
}
if_empty-Allowed none (some cm) st a b = nothing_done shared _ _ refl
if_empty-Allowed (some s) none st a b = nothing_done shared _ _ refl
if_empty-Allowed (some s) (some cm) st a b = nothing_done shared _ _ refl

reads : {A : Type 0} (o : Option A) → Reads shared here objects own (answer_of o) o
reads none = λ _. refl
reads (some a) = refl

creates :
    (o : Option Secret) (s : Secret) (st : Stored)
    → st.secret ≡ o
    → CreatesSecret shared here objects own s (created o s st).0 (view st) (view (created o s st).1)
creates none s st e = record { written = inr (e, refl); done = λ _. refl }
creates (some x) s st e = record { written = inl refl; done = λ h. cc }

module _ (cm : ConfigMap) (k : cm.key ≡ here) where
  creates_map :
      (o : Option ConfigMap) (st : Stored)
      → Writes shared here objects own cm (view st) (view (created_map o cm st).1)
  creates_map none st =
      inr (ap (λ (c : ConfigMap). record (view st) { config_map = some c }) (named_self cm k))
  creates_map (some x) st = inl refl

  updates_map :
      (o : Option ConfigMap) (st : Stored)
      → Writes shared here objects own cm (view st) (view (updated_map o cm st).1)
  updates_map none st = inl refl
  updates_map (some x) st =
      inr (ap (λ (c : ConfigMap). record (view st) { config_map = some c }) (named_self cm k))

deletes :
    (o : Option ConfigMap) (st : Stored)
    → st.config_map ≡ o
    → Deletes shared here objects own (deleted_map o st).0 (view st) (view (deleted_map o st).1)
deletes none st e = record { written = inl refl; done = λ h. cc; missing = λ x h n. rw e refl }
deletes (some x) st e = record { written = inr refl; done = λ h. refl; missing = λ x h n. refl }

shared-IsSharedServer : IsSharedServer shared here objects own
shared-IsSharedServer = record {
  get_secret =
      busy-Call rests (server.get_secret here) (ReadsSecret shared here objects own) rests-Allowed
        (λ st. record { unchanged = refl; seen = reads st.secret });
  get_config_map =
      busy-Call rests (server.get_config_map here) (ReadsConfigMap shared here objects own)
        rests-Allowed
        (λ st. record {
          unchanged = refl;
          seen = reads (named_in here st.config_map);
          named = named_key st.config_map;
        });
  create_secret = λ s.
      busy-Call makes_both (server.create_secret here s) (CreatesSecret shared here objects own s)
        (λ st. if_empty-Allowed st.secret st.config_map st refl refl)
        (λ st. creates st.secret s st refl);
  create_config_map = λ cm w k.
      busy-Call rests (server.create_config_map cm) (λ _. Writes shared here objects own cm)
        rests-Allowed (λ st. creates_map cm k st.config_map st) w;
  update_config_map = λ cm w k.
      busy-Call rests (server.update_config_map cm) (λ _. Writes shared here objects own cm)
        rests-Allowed (λ st. updates_map cm k st.config_map st) w;
  delete_config_map =
      busy-Call rests (server.delete_config_map here) (Deletes shared here objects own)
        rests-Allowed (λ st. deletes st.config_map st refl);
  generate_key = busy-Call rests server.generate_key (λ _ o o'. o' ≡ o) rests-Allowed (λ st. refl);
}

shared-IsKeyCodec : IsKeyCodec shared
shared-IsKeyCodec = record {
  generated = λ w public private block ssh_public made marshalled converted.
      let keys : ◌≡◌ {A = Result (ℕ × ℕ)} (ok (7, 7)) (ok (public, private)) = made in
      let b : ◌≡◌ {A = Result ℕ} (ok private) (ok block) = marshalled in
      let p : ◌≡◌ {A = Result ℕ} (ok public) (ok ssh_public) = converted in
      let pair : ◌≡◌ {A = ℕ × ℕ} (7, 7) (public, private) = cc in
      let private_key : 7 ≡ private = ap (λ (x : ℕ × ℕ). x.1) pair in
      let public_key : 7 ≡ public = ap (λ (x : ℕ × ℕ). x.0) pair in
      (block, refl, sym (cc (b)) ∙ sym private_key ∙ public_key ∙ cc (p));
}

abbrev fresh : Busy
fresh = record { stored = record { secret = none; config_map = none }; own = [] }

-- This operator's own key is refused, and the other one's stays.
loses :
    ((ensure_operator_resources shared "file-restore" fresh).1.stored.secret
      ≡ some (secret_of (9 ∷ [])))
    × ((ensure_operator_resources shared "file-restore" fresh).0
        ≡ err (wrap "failed to create Secret" present))
unfolding ensure_operator_resources ensure_both replace_orphan create_keypair_and_config_map
    store_keypair on_result pure ◌>>=◌
loses = (refl, refl)

ensure_operator_resources-AllAllowed_example :
    Both shared
      (objects (ensure_operator_resources shared "file-restore" fresh).1).secret
      (objects (ensure_operator_resources shared "file-restore" fresh).1).config_map
    × AllAllowed shared "file-restore" objects own shared-IsSharedServer shared-IsKeyCodec
        (ensure_operator_resources shared "file-restore" fresh).1
ensure_operator_resources-AllAllowed_example =
    ensure_operator_resources-AllAllowed shared "file-restore" objects own shared-IsSharedServer
      shared-IsKeyCodec fresh tt tt
