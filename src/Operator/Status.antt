-- ===== src/Operator/Status.antt =====
-- What the status of the operator's own object should tell, and that the test for an update decides
-- it.
use vm_file_restore_operator.Base.{
  ◌≡◌, refl, ℕ, ◌==◌, String, true, false, some, List, ◌=?◌, eq_refl, eq_iff, arith, none, Option,
}
use vm_file_restore_operator.Types.{
  Condition, ConditionStatus, condition_true, condition_false, condition_unknown,
}
use vm_file_restore_operator.Operator.{
  OperatorApi, FileRestoreOperator, same_status, available, progressing, degraded, upgradeable,
  is_found_set, is_condition_set, needs_update, reason_deployed,
}

-- The documented behaviour of the two functions on conditions: what was set is found, and a
-- condition of another type is found as before.
pub record IsConditionApi (api : OperatorApi) : Type 0 where
  pub set_found :
      (cs : List Condition) (n : Condition) (w : api.World)
      → (c : Condition) × (api.find_status_condition (api.set_status_condition cs n w).0 n.type
          ≡ some c)
        × (c.status ≡ n.status)
        × (c.reason ≡ n.reason)
        × (c.message ≡ n.message)
        × (c.observed_generation ≡ n.observed_generation)
  pub set_others :
      (cs : List Condition) (n : Condition) (w : api.World) (t : String)
      → n.type =? t ≡ false
      → api.find_status_condition (api.set_status_condition cs n w).0 t
        ≡ api.find_status_condition cs t

-- The condition of that type is there with the status, the message and the generation of `wanted`,
-- and with the reason of a deployed operator.
abbrev pub Shows : (api : OperatorApi) → List Condition → Condition → Type 0
Shows api cs wanted =
    (c : Condition) × (api.find_status_condition cs wanted.type ≡ some c)
    × (c.status ≡ wanted.status)
    × (c.reason ≡ reason_deployed)
    × (c.message ≡ wanted.message)
    × (c.observed_generation ≡ wanted.observed_generation)

-- The status tells of the object's generation and of the version, with the four conditions.
pub record IsSettled (api : OperatorApi) (o : FileRestoreOperator) (version : String) : Type 0 where
  pub observed_generation : o.status.observed_generation ≡ o.generation
  pub operator_version : o.status.operator_version ≡ version
  pub target_version : o.status.target_version ≡ version
  pub observed_version : o.status.observed_version ≡ version
  pub is_available : Shows api o.status.conditions (available o.generation)
  pub is_progressing : Shows api o.status.conditions (progressing o.generation)
  pub is_degraded : Shows api o.status.conditions (degraded o.generation)
  pub is_upgradeable : Shows api o.status.conditions (upgradeable o.generation)

pub same_status_refl : (s : ConditionStatus) → same_status s s ≡ true
same_status_refl condition_true = refl
same_status_refl condition_false = refl
same_status_refl condition_unknown = refl

pub equal_refl : (n : ℕ) → n == n ≡ true
equal_refl n = ground arith

same_status_sound : (s t : ConditionStatus) → same_status s t ≡ true → s ≡ t
same_status_sound condition_true condition_true h = refl
same_status_sound condition_false condition_false h = refl
same_status_sound condition_unknown condition_unknown h = refl
same_status_sound condition_true condition_false h = cc
same_status_sound condition_true condition_unknown h = cc
same_status_sound condition_false condition_true h = cc
same_status_sound condition_false condition_unknown h = cc
same_status_sound condition_unknown condition_true h = cc
same_status_sound condition_unknown condition_false h = cc

-- The test of an object's status decides whether it is settled.
module _ (api : OperatorApi) where
  open api use {World}

  found-Shows :
      (cs : List Condition) (wanted : Condition) (found : Option Condition)
      → api.find_status_condition cs wanted.type ≡ found
      → is_found_set api found wanted ≡ true
      → Shows api cs wanted
  unfolding is_found_set
  found-Shows cs wanted none e h = cc
  found-Shows cs wanted (some c) e h =
      let parts : (same_status c.status wanted.status ≡ true)
          × (c.reason ≡ reason_deployed)
          × (c.message ≡ wanted.message)
          × (c.observed_generation ≡ wanted.observed_generation) =
        ground (arith, eq_iff c.reason reason_deployed, eq_iff c.message wanted.message) in
      (c, e, same_status_sound _ _ parts.0, parts.1, parts.2, parts.3)

  set-Shows :
      (cs : List Condition) (wanted : Condition)
      → is_condition_set api cs wanted ≡ true
      → Shows api cs wanted
  unfolding is_condition_set
  set-Shows cs wanted h = found-Shows cs wanted _ refl h

  Shows-set :
      (cs : List Condition) (wanted : Condition)
      → Shows api cs wanted
      → is_condition_set api cs wanted ≡ true
  unfolding is_condition_set is_found_set
  Shows-set cs wanted (c, e, s, reason, m, g) =
      rw (e, s, reason, m, g)
        (rw
          (
            same_status_refl wanted.status,
            eq_refl wanted.message,
            equal_refl wanted.observed_generation,
          )
          refl)

  pub not_due-IsSettled :
      (o : FileRestoreOperator) (version : String)
      → needs_update api o.status o.generation version ≡ false
      → IsSettled api o version
  unfolding needs_update
  not_due-IsSettled o version h =
      let g = o.generation in
      let cs = o.status.conditions in
      let parts : (o.status.observed_generation ≡ g)
          × (o.status.operator_version ≡ version)
          × (o.status.target_version ≡ version)
          × (o.status.observed_version ≡ version)
          × (is_condition_set api cs (available g) ≡ true)
          × (is_condition_set api cs (progressing g) ≡ true)
          × (is_condition_set api cs (degraded g) ≡ true)
          × (is_condition_set api cs (upgradeable g) ≡ true) =
        ground (
          arith,
          eq_iff o.status.operator_version version,
          eq_iff o.status.target_version version,
          eq_iff o.status.observed_version version,
        ) in
      let (eg, eo, et, ev, ca, cp, cd, cu) = parts in
      record {
        observed_generation = eg;
        operator_version = eo;
        target_version = et;
        observed_version = ev;
        is_available = set-Shows _ _ ca;
        is_progressing = set-Shows _ _ cp;
        is_degraded = set-Shows _ _ cd;
        is_upgradeable = set-Shows _ _ cu;
      }

  pub IsSettled-not_due :
      (o : FileRestoreOperator) (version : String)
      → IsSettled api o version
      → needs_update api o.status o.generation version ≡ false
  unfolding needs_update
  IsSettled-not_due o version h =
      rw
        (
          h.observed_generation,
          h.operator_version,
          h.target_version,
          h.observed_version,
          Shows-set o.status.conditions (available o.generation) h.is_available,
          Shows-set o.status.conditions (progressing o.generation) h.is_progressing,
          Shows-set o.status.conditions (degraded o.generation) h.is_degraded,
          Shows-set o.status.conditions (upgradeable o.generation) h.is_upgradeable,
        )
        (rw (equal_refl o.generation, eq_refl version) refl)
