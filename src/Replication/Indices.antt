-- ===== src/Replication/Indices.antt =====
-- The operations of replication_manager.go that delete indices, or stop replication by a pattern.
use qubership_opensearch.Prelude.{
  ◌⊎◌, inl, inr, String, Bool, false, not, ◌==◌, ◌<>◌, leb, eqb, starts_with, none, List, [], ◌∷◌,
  if◌then◌else◌,
}
use qubership_opensearch.Http.{
  Method, World, message, Error, message_status, Exec, pure, attempt, require_ok, ensure, ◌>>=◌,
  ◌>>◌, send_request, get_array_data,
}
use qubership_opensearch.Replication.Stats.{ReplicationIndexStats}
use qubership_opensearch.Replication.Manager.{
  ReplicationManager, replication_not_in_progress_status, get_index_replication_status,
  stop_indices_replication,
}

abbrev pub is_service : String → Bool
is_service index = starts_with index "."

abbrev pub list_path : String → String
list_path pattern' = "_cat/indices/" <> pattern' <> "?h=index"

module _ (w : World) (rm : ReplicationManager) where
  unfoldable pub get_indices_by_pattern_exclude_service : String → Exec (List String)
  get_indices_by_pattern_exclude_service pattern' =
      get_array_data w rm.rest_client (list_path pattern') "index" (λ s. pure (not (is_service s)))

  unfoldable pub delete_indices_by_pattern : String → Exec (Unit {0})
  delete_indices_by_pattern pattern' = do
    reply ← send_request w rm.rest_client Method.delete pattern' none
    require_ok reply.error
    ensure (not (eqb reply.status_code 403))
        (message "no permissions to delete opensearch indices by pattern")
    ensure (not (leb 400 reply.status_code))
        (message_status "can not delete indices by pattern" reply.status_code)

  -- The branch of a 403: stop the replication of the indices, and delete once more.
  unfoldable pub unlock_and_delete : String → Exec (Unit {0})
  unlock_and_delete pattern' = do
    indices ← get_indices_by_pattern_exclude_service pattern'
    stop_indices_replication w rm indices
    delete_indices_by_pattern pattern'

  -- The last test reads the status code of the first response.
  unfoldable pub delete_indices_by_pattern_with_unlock : String → Exec (Unit {0})
  delete_indices_by_pattern_with_unlock pattern' = do
    reply ← send_request w rm.rest_client Method.delete pattern' none
    require_ok reply.error
    (if eqb reply.status_code 403 then unlock_and_delete pattern' else pure tt)
    ensure (not (leb 400 reply.status_code))
        (message_status "can not delete indices by pattern" reply.status_code)

  unfoldable pub delete_each : List String → Exec (Unit {0})
  delete_each [] = pure tt
  delete_each (index ∷ indices) = do
    delete_indices_by_pattern_with_unlock index
    delete_each indices

  unfoldable pub delete_indices : Exec (Unit {0})
  delete_indices =
      if not (rm.pattern == "*") then delete_indices_by_pattern_with_unlock rm.pattern else (do
        indices ←
            get_array_data w rm.rest_client "_cat/indices?h=index" "index"
              (λ s. pure (not (is_service s)))
        delete_each indices)

  -- The filter of StopIndicesReplicationByPattern: an index whose status cannot be read is skipped.
  unfoldable pub in_progress : ReplicationIndexStats ⊎ Error → Bool
  in_progress (inr e) = false
  in_progress (inl stats) = not (stats.status == replication_not_in_progress_status)

  unfoldable pub is_replicated : String → Exec Bool
  is_replicated index = if is_service index then pure false else (do
    status ← attempt (get_index_replication_status w rm index)
    pure (in_progress status))

  unfoldable pub stop_indices_replication_by_pattern : String → Exec (Unit {0})
  stop_indices_replication_by_pattern pattern' = do
    indices ← get_array_data w rm.rest_client (list_path pattern') "index" is_replicated
    stop_indices_replication w rm indices
