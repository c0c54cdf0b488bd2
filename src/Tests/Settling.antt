-- ===== src/Tests/Settling.antt =====
-- The operator's own status, on a server in memory.
use vm_file_restore_operator.Base.{◌≡◌, ◌⊎◌, refl, [], ◌∷◌, ◌=?◌, find?, eq_refl}
use vm_file_restore_operator.Errors.{ok}
use vm_file_restore_operator.Types.{Key}
use vm_file_restore_operator.Monad.{pure, ◌>>=◌, on_result}
use vm_file_restore_operator.Controller.State.{stop}
use vm_file_restore_operator.Operator.{
  OperatorApi, FileRestoreOperator, reconcile_operator, report, update_reported, reported,
  needs_update, is_condition_set, is_found_set, operator_version_of,
}
use vm_file_restore_operator.Operator.Status.{IsConditionApi, IsSettled}
use vm_file_restore_operator.Operator.Settled.{Sends, reconcile_operator-settles}

abbrev named : Key → FileRestoreOperator → FileRestoreOperator
named k o = record o { name = k.name; namespace = k.namespace }

-- One object, which answers under every key; the newest condition of a type counts.
abbrev memory : OperatorApi
memory = record {
  World = FileRestoreOperator;
  get_operator = λ k w. (ok (named k w), w);
  update_status = λ o w. (ok tt, o);
  set_status_condition = λ cs n w. (n ∷ cs, w);
  find_status_condition = λ cs t. find? (λ c. c.type =? t) cs;
}

memory-IsConditionApi : IsConditionApi memory
memory-IsConditionApi = record {
  set_found = λ cs n w. (n, rw (eq_refl n.type) refl, refl, refl, refl, refl);
  set_others = λ cs n w t h. rw h refl;
}

abbrev key : Key
key = record { name = "operator"; namespace = "file-restore" }

abbrev created : FileRestoreOperator
created = record {
  name = "operator";
  namespace = "file-restore";
  generation = 1;
  status = record {
    conditions = [];
    operator_version = "";
    target_version = "";
    observed_version = "";
    observed_generation = 0;
  };
}

abbrev after_first : FileRestoreOperator
after_first = (reconcile_operator memory "v1" key created).1

reports :
    ((reconcile_operator memory "v1" key created).0 ≡ stop)
    × (after_first.status.observed_version ≡ "v1")
unfolding reconcile_operator report update_reported reported needs_update is_condition_set
    is_found_set operator_version_of ◌>>=◌ on_result pure
reports = (refl, refl)

reconcile_operator-settles_example :
    (IsSettled memory created (operator_version_of "v1")
      × (reconcile_operator memory "v1" key created ≡ (stop, created)))
    ⊎ ((¬ IsSettled memory created (operator_version_of "v1"))
        × Sends memory memory-IsConditionApi created
            (operator_version_of "v1")
            (reconcile_operator memory "v1" key created))
reconcile_operator-settles_example =
    reconcile_operator-settles memory memory-IsConditionApi "v1" key created created refl
