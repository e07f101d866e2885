-- ===== src/DisasterRecovery/Switchover/Removal.antt =====
-- The removal of the previous replication deletes no index.
use qubership_opensearch.Prelude.{
  ◌⊎◌, inl, inr, String, ◌≡◌, refl, ◌<>◌, Option, none, some, List, [], ◌∷◌,
}
use qubership_opensearch.Json.{Json}
use qubership_opensearch.Http.{Method, Event, sent, World, Error, send_request}
use qubership_opensearch.Http.Trace.{
  Adds, Adds-bind, Adds-pure, Adds-require_ok, Adds-raise, Adds-attempt, Adds-sleep,
  Adds-send_request, Adds-get_array_data, adds_rules,
}
use qubership_opensearch.Replication.Manager.{
  ReplicationManager, start_full_replication_path, get_auto_follow_rule_stats, delete_rule,
  removal_of, remove_replication_rule, get_replicated_indices, stop_index, stop_indices,
  stop_indices_replication, stop_replication, get_replication_index_stats,
  get_index_replication_status, cancel_tasks, delete_admin_replication_tasks,
}
use qubership_opensearch.Replication.Indices.{is_replicated, stop_indices_replication_by_pattern}
use qubership_opensearch.DisasterRecovery.Process.{remove_previous_replication}

-- The request deletes no index: it is no DELETE, or it deletes the autofollow rule.
abbrev pub IsHarmless : ReplicationManager → Event → Type 0
IsHarmless rm (sent r) =
    r.method ≡ Method.delete → r.url ≡ rm.rest_client.url <> "/" <> start_full_replication_path
IsHarmless rm _ = Unit

module _ (w : World) (rm : ReplicationManager) where
  get-IsHarmless :
      (path : String) (payload : Option Json)
      → Adds (IsHarmless rm) (send_request w rm.rest_client Method.get path payload)
  get-IsHarmless path payload = Adds-send_request w rm.rest_client Method.get path payload (λ e. cc)

  post-IsHarmless :
      (path : String) (payload : Option Json)
      → Adds (IsHarmless rm) (send_request w rm.rest_client Method.post path payload)
  post-IsHarmless path payload =
      Adds-send_request w rm.rest_client Method.post path payload (λ e. cc)

  rules-IsHarmless :
      (payload : Option Json)
      → Adds
          (IsHarmless rm)
          (send_request w rm.rest_client Method.delete start_full_replication_path payload)
  rules-IsHarmless payload = Adds-send_request w rm.rest_client Method.delete _ payload (λ e. refl)

  ruleset harmless_rules = (adds_rules, get-IsHarmless, post-IsHarmless, rules-IsHarmless)

  read_rule-IsHarmless : Adds (IsHarmless rm) (get_auto_follow_rule_stats w rm)
  unfolding get_auto_follow_rule_stats
  read_rule-IsHarmless = search harmless_rules depth 10

  delete_rule-IsHarmless : Adds (IsHarmless rm) (delete_rule w rm)
  unfolding delete_rule
  delete_rule-IsHarmless = search harmless_rules depth 10

  removal_of-IsHarmless : (rule : Option _ ⊎ Error) → Adds (IsHarmless rm) (removal_of w rm rule)
  unfolding removal_of
  removal_of-IsHarmless (inr e) = Adds-raise _
  removal_of-IsHarmless (inl none) = Adds-pure _
  removal_of-IsHarmless (inl (some rule)) = delete_rule-IsHarmless

  remove_rule-IsHarmless : Adds (IsHarmless rm) (remove_replication_rule w rm)
  unfolding remove_replication_rule
  remove_rule-IsHarmless =
      Adds-bind _ _ (Adds-attempt _ read_rule-IsHarmless) (λ rule. removal_of-IsHarmless rule)

  indices-IsHarmless : Adds (IsHarmless rm) (get_replicated_indices w rm)
  unfolding get_replicated_indices
  indices-IsHarmless = search harmless_rules depth 10

  stop_index-IsHarmless : (index : String) → Adds (IsHarmless rm) (stop_index w rm index)
  unfolding stop_index
  stop_index-IsHarmless index = search harmless_rules depth 10

  stop_each-IsHarmless : (indices : List String) → Adds (IsHarmless rm) (stop_indices w rm indices)
  unfolding stop_indices
  stop_each-IsHarmless [] = Adds-pure _
  stop_each-IsHarmless (index ∷ indices) =
      Adds-bind _ _ (stop_index-IsHarmless index) (λ _. stop_each-IsHarmless indices)

  stop_indices-IsHarmless :
      (indices : List String) → Adds (IsHarmless rm) (stop_indices_replication w rm indices)
  unfolding stop_indices_replication
  stop_indices-IsHarmless indices =
      Adds-bind _ _ (stop_each-IsHarmless indices) (λ _. Adds-sleep 3000 tt)

  stop_replication-IsHarmless : Adds (IsHarmless rm) (stop_replication w rm)
  unfolding stop_replication
  stop_replication-IsHarmless =
      search (harmless_rules, indices-IsHarmless, stop_indices-IsHarmless) depth 10

  status-IsHarmless :
      (index : String) → Adds (IsHarmless rm) (get_index_replication_status w rm index)
  unfolding get_index_replication_status get_replication_index_stats
  status-IsHarmless index = search harmless_rules depth 10

  is_replicated-IsHarmless : (index : String) → Adds (IsHarmless rm) (is_replicated w rm index)
  unfolding is_replicated
  is_replicated-IsHarmless index = search (harmless_rules, status-IsHarmless) depth 10

  by_pattern-IsHarmless :
      (pattern' : String) → Adds (IsHarmless rm) (stop_indices_replication_by_pattern w rm pattern')
  unfolding stop_indices_replication_by_pattern
  by_pattern-IsHarmless pattern' =
      Adds-bind _ _
        (Adds-get_array_data w rm.rest_client _ "index" _ (λ e. cc) is_replicated-IsHarmless)
        stop_indices-IsHarmless

  cancel_tasks-IsHarmless : (tasks : List String) → Adds (IsHarmless rm) (cancel_tasks w rm tasks)
  unfolding cancel_tasks
  cancel_tasks-IsHarmless [] = Adds-pure _
  cancel_tasks-IsHarmless (task ∷ tasks) =
      Adds-bind _ _ (post-IsHarmless _ _)
        λ reply. Adds-bind _ _ (Adds-require_ok _) (λ _. cancel_tasks-IsHarmless tasks)

  tasks-IsHarmless : Adds (IsHarmless rm) (delete_admin_replication_tasks w rm)
  unfolding delete_admin_replication_tasks
  tasks-IsHarmless = search (harmless_rules, cancel_tasks-IsHarmless) depth 10

  pub removal-IsHarmless : Adds (IsHarmless rm) (remove_previous_replication w rm)
  unfolding remove_previous_replication
  removal-IsHarmless = Adds-bind _ _ remove_rule-IsHarmless λ _.
      Adds-bind _ _ stop_replication-IsHarmless
        λ _. Adds-bind _ _ (by_pattern-IsHarmless rm.pattern) (λ _. tasks-IsHarmless)
