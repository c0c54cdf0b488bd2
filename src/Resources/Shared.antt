-- ===== src/Resources/Shared.antt =====
-- The server of the operator's resources while several operators use it.
pub mod Steps
pub mod Calls
pub mod Writing
pub mod Keying
pub mod Interleaved
use vm_file_restore_operator.Base.{◌≡◌, ◌≢◌, ◌⊎◌, refl, List, [], ◌∷◌, Option, none, some, true}
use vm_file_restore_operator.Errors.{Error, Result, ok, err, is_not_found}
use vm_file_restore_operator.Types.{Key, Secret}
use vm_file_restore_operator.Resources.{ResourceApi, ConfigMap}
use vm_file_restore_operator.Resources.Ensure.Pairing.{Both}

-- The two objects under the operator's key.
pub record Objects : Type 0 where
  pub secret : Option Secret
  pub config_map : Option ConfigMap

-- What an operator may do to the two objects in one step: a secret stays as it is, no config map is
-- made where there is no secret, and objects that agree on the key go on to.
pub record Allowed (api : ResourceApi) (o o' : Objects) : Type 0 where
  pub kept : (s : Secret) → o.secret ≡ some s → o'.secret ≡ some s
  pub unpublished : o'.secret ≡ none → o.config_map ≡ none → o'.config_map ≡ none
  pub agree : Both api o.secret o.config_map → Both api o'.secret o'.config_map

module _ (api : ResourceApi) (k : Key) (objects : api.World → Objects)
    (own : api.World → List (Objects × Objects)) where
  open api use {World}

  -- A call works at one moment, on `before`, and others work before and after it. The world records
  -- this operator's own steps.
  pub record Call (Step : Objects → Objects → Type 0) (w w' : World) : Type 0 where
    pub before : Objects
    pub after : Objects
    pub meanwhile : Allowed api (objects w) before
    pub step : Step before after
    pub since : Allowed api after (objects w')
    pub logged : own w' ≡ (before, after) ∷ own w

  -- The steps of the calls, by their answers.
  abbrev pub Reads : {A : Type 0} → Result A → Option A → Type 0
  Reads (ok a) o = o ≡ some a
  Reads (err e) o = is_not_found e ≡ true → o ≡ none

  pub record ReadsSecret (answer : Result Secret) (o o' : Objects) : Type 0 where
    pub unchanged : o' ≡ o
    pub seen : Reads answer o.secret

  pub record ReadsConfigMap (answer : Result ConfigMap) (o o' : Objects) : Type 0 where
    pub unchanged : o' ≡ o
    pub seen : Reads answer o.config_map
    pub named : (cm : ConfigMap) → answer ≡ ok cm → cm.key ≡ k

  -- A create that fails may have been done.
  pub record CreatesSecret (s : Secret) (answer : Result (Unit {0})) (o o' : Objects) : Type 0 where
    pub written : (o' ≡ o) ⊎ ((o.secret ≡ none) × (o' ≡ record o { secret = some s }))
    pub done : answer ≡ ok tt → o'.secret ≡ some s

  abbrev pub Writes : ConfigMap → Objects → Objects → Type 0
  Writes cm o o' = (o' ≡ o) ⊎ (o' ≡ record o { config_map = some cm })

  pub record Deletes (answer : Result (Unit {0})) (o o' : Objects) : Type 0 where
    pub written : (o' ≡ o) ⊎ (o' ≡ record o { config_map = none })
    pub done : answer ≡ ok tt → o'.config_map ≡ none
    pub missing : (e : Error) → answer ≡ err e → is_not_found e ≡ true → o'.config_map ≡ none

  -- The server while other operators, whose steps are all allowed, use it at the same time.
  pub record IsSharedServer : Type 0 where
    pub get_secret :
        (w : World) → Call (ReadsSecret (api.get_secret k w).0) w (api.get_secret k w).1
    pub get_config_map :
        (w : World) → Call (ReadsConfigMap (api.get_config_map k w).0) w (api.get_config_map k w).1
    pub create_secret :
        (s : Secret) (w : World)
        → Call (CreatesSecret s (api.create_secret k s w).0) w (api.create_secret k s w).1
    pub create_config_map :
        (cm : ConfigMap) (w : World)
        → cm.key ≡ k
        → Call (Writes cm) w (api.create_config_map cm w).1
    pub update_config_map :
        (cm : ConfigMap) (w : World)
        → cm.key ≡ k
        → Call (Writes cm) w (api.update_config_map cm w).1
    pub delete_config_map :
        (w : World) → Call (Deletes (api.delete_config_map k w).0) w (api.delete_config_map k w).1
    pub generate_key : (w : World) → Call (λ o o'. o' ≡ o) w (api.generate_key w).1
