-- ===== src/Replication/Manager.antt =====
-- ReplicationManager: the connection, the autofollow rule and the replication of single indices.
use qubership_opensearch.Prelude.{
  ℕ, ◌⊎◌, inl, inr, String, not, ◌&&◌, ◌==◌, ◌<>◌, ltb, leb, eqb, starts_with, is_empty, Option,
  none, some, List, [], ◌∷◌, ◌++◌, if◌then◌else◌, Dict, keys,
}
use qubership_opensearch.Json.{Json, str, texts, object}
use qubership_opensearch.Http.{
  Method, World, Error, message, message_status, message_texts, wrapped, Exec, pure, raise, attempt,
  require_ok, ensure, sleep, ◌>>=◌, ◌>>◌, RestClient, send_request, unmarshal_to,
}
use qubership_opensearch.Replication.Stats.{
  decode_replication_stats, InnerTask, TasksInfo, decode_nodes_info, RuleStats,
  decode_autofollow_stats, ReplicationIndexStats, decode_replication_index_stats,
  PluginReplicationError, decode_plugin_replication_error,
}

abbrev pub leader_alias : String
leader_alias = "leader-cluster"

abbrev pub start_full_replication_path : String
start_full_replication_path = "_plugins/_replication/_autofollow"

abbrev pub replication_name : String
replication_name = "dr-replication"

abbrev pub replication_not_in_progress_status : String
replication_not_in_progress_status = "REPLICATION NOT IN PROGRESS"

pub record ReplicationManager : Type 0 where
  pub rest_client : RestClient
  pub remote_url : String
  pub pattern : String

abbrev pub status_path : String → String
status_path index = "_plugins/_replication/" <> index <> "/_status"

abbrev pub stop_path : String → String
stop_path index = "_plugins/_replication/" <> index <> "/_stop"

abbrev remote_settings : ReplicationManager → Json
remote_settings rm =
    let seeds = object (("seeds", texts (rm.remote_url ∷ [])) ∷ []) in
    let remote = object ((leader_alias, seeds) ∷ []) in
    let cluster = object (("remote", remote) ∷ []) in
    object (("persistent", object (("cluster", cluster) ∷ [])) ∷ [])

abbrev autofollow_rule : ReplicationManager → Json
autofollow_rule rm =
    let roles = object (
      ("leader_cluster_role", str "all_access")
      ∷ ("follower_cluster_role", str "all_access")
      ∷ []) in
    object (
      ("leader_alias", str leader_alias)
      ∷ ("pattern", str rm.pattern)
      ∷ ("name", str replication_name)
      ∷ ("use_roles", roles)
      ∷ [])

abbrev pub rule_reference : Json
rule_reference = object (("leader_alias", str leader_alias) ∷ ("name", str replication_name) ∷ [])

-- The error that Start returns for a response outside 200..299.
unfoldable pub start_error : ℕ → PluginReplicationError → Error
start_error code e =
    if eqb code 500
      && e.kind == "connect_transport_exception"
      && e.caused_by.reason == "handshake failed because connection reset"
    then message "leader and follower opensearch clusters have different admin and transport certs"
    else if eqb code 500
        && e.kind == "connect_transport_exception"
        && starts_with e.caused_by.reason "Connection refused"
    then message "the leader opensearch cluster was resolved but connection refused"
    else if eqb code 404 && e.kind == "no_such_remote_cluster_exception"
    then message_texts "the opensearch cluster with alias was not found" (leader_alias ∷ [])
    else if eqb code 400
        && e.kind == "illegal_argument_exception"
        && e.caused_by.kind == "unknown_host_exception"
    then message_texts "remote opensearch cluster host is invalid" (e.caused_by.reason ∷ [])
    else message "error occurred during start dr replication"

-- The first rule of the name.
unfoldable pub find_rule : List RuleStats → Option RuleStats
find_rule [] = none
find_rule (r ∷ rs) = let rest = find_rule rs in if r.name == replication_name then some r else rest

abbrev pub replication_task_action : String
replication_task_action = "cluster:indices/admin/replication[c]"

unfoldable pub replication_tasks : Dict InnerTask → List String
replication_tasks [] = []
replication_tasks ((id, task) ∷ tasks) =
    let rest = replication_tasks tasks in
    if task.action == replication_task_action then id ∷ rest else rest

unfoldable pub tasks_to_delete : Dict TasksInfo → List String
unfolding replication_tasks
tasks_to_delete [] = []
tasks_to_delete ((node, info) ∷ nodes) = replication_tasks info.tasks ++ tasks_to_delete nodes

module _ (w : World) (rm : ReplicationManager) where
  unfoldable pub configure : Exec (Unit {0})
  configure = do
    reply ← send_request w rm.rest_client Method.put "_cluster/settings" (some (remote_settings rm))
    require_ok reply.error
    ensure (not (leb 400 reply.status_code))
        (message_status "request to create connection returned unexpected status" reply.status_code)

  unfoldable pub start : Exec (Unit {0})
  start = do
    reply ←
        send_request w rm.rest_client Method.post start_full_replication_path
          (some (autofollow_rule rm))
    require_ok reply.error
    if leb 200 reply.status_code && ltb reply.status_code 300 then pure tt else do
      e ← unmarshal_to decode_plugin_replication_error reply.body
      raise (start_error reply.status_code e)

  -- The status code of the response is not looked at.
  unfoldable pub get_auto_follow_rule_stats : Exec (Option RuleStats)
  get_auto_follow_rule_stats = do
    reply ← send_request w rm.rest_client Method.get "_plugins/_replication/autofollow_stats" none
    require_ok reply.error
    stats ← unmarshal_to decode_autofollow_stats reply.body
    pure (find_rule stats.autofollow_rule_stats)

  unfoldable pub delete_rule : Exec (Unit {0})
  delete_rule = do
    reply ←
        send_request w rm.rest_client Method.delete start_full_replication_path
          (some rule_reference)
    require_ok reply.error
    ensure (not (leb 400 reply.status_code && not (eqb reply.status_code 404)))
        (message_status "internal server error" reply.status_code)

  unfoldable pub removal_of : Option RuleStats ⊎ Error → Exec (Unit {0})
  removal_of (inr e) = raise (wrapped "failed to get replication rule" e)
  removal_of (inl none) = pure tt
  removal_of (inl (some rule)) = delete_rule

  unfoldable pub remove_replication_rule : Exec (Unit {0})
  remove_replication_rule = do rule ← attempt get_auto_follow_rule_stats; removal_of rule

  unfoldable pub get_replicated_indices : Exec (List String)
  get_replicated_indices = do
    reply ← send_request w rm.rest_client Method.get "_plugins/_replication/follower_stats" none
    require_ok reply.error
    ensure (not (leb 400 reply.status_code)) (message "internal server error")
    stats ← unmarshal_to decode_replication_stats reply.body
    pure (keys stats.index_stats)

  unfoldable pub stop_index : String → Exec (Unit {0})
  stop_index index = do
    reply ← send_request w rm.rest_client Method.post (stop_path index) (some (object []))
    require_ok reply.error
    ensure (not (leb 400 reply.status_code))
        (message_status "can not stop replication" reply.status_code)

  -- The loop of stopIndicesReplication.
  unfoldable pub stop_indices : List String → Exec (Unit {0})
  stop_indices [] = pure tt
  stop_indices (index ∷ indices) = do stop_index index; stop_indices indices

  unfoldable pub stop_indices_replication : List String → Exec (Unit {0})
  stop_indices_replication indices = do stop_indices indices; sleep 3000

  unfoldable pub stop_replication : Exec (Unit {0})
  stop_replication = do
    indices ← get_replicated_indices
    if is_empty indices then pure tt else stop_indices_replication indices

  -- getReplicationIndexStats, which looks at no status code.
  unfoldable pub get_replication_index_stats : String → Exec ReplicationIndexStats
  get_replication_index_stats path = do
    reply ← send_request w rm.rest_client Method.get path none
    require_ok reply.error
    unmarshal_to decode_replication_index_stats reply.body

  unfoldable pub get_index_replication_status : String → Exec ReplicationIndexStats
  get_index_replication_status index = get_replication_index_stats (status_path index)

  unfoldable pub cancel_tasks : List String → Exec (Unit {0})
  cancel_tasks [] = pure tt
  cancel_tasks (task ∷ tasks) = do
    reply ← send_request w rm.rest_client Method.post ("_tasks/" <> task <> "/_cancel") none
    require_ok reply.error
    cancel_tasks tasks

  unfoldable pub delete_admin_replication_tasks : Exec (Unit {0})
  delete_admin_replication_tasks = do
    reply ← send_request w rm.rest_client Method.get "_tasks" none
    require_ok reply.error
    info ← unmarshal_to decode_nodes_info reply.body
    cancel_tasks (tasks_to_delete info.nodes)
