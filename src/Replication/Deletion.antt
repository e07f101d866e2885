-- ===== src/Replication/Deletion.antt =====
-- Which indices DeleteIndices deletes, and what becomes of a deletion that is refused with 403.
use qubership_opensearch.Prelude.{
  String, ◌≡◌, refl, subst, Bool, true, false, not, ◌<>◌, Option, none, List, [], ◌∷◌, ◌++◌, All,
  arith, eq_iff, not-true→false,
}
use qubership_opensearch.Json.{Json}
use qubership_opensearch.Http.{
  Method, Request, Body, answered, Event, sent, World, message_status, ok, err, pure, require_ok,
  ensure, ◌>>=◌, send_request, send_basic_request, request_of, get_array_data,
}
use qubership_opensearch.Http.Trace.{
  Adds, Adds-bind, Adds-bind_of, Adds-pure, Adds-sleep, Adds-send_request, Adds-get_array_data,
  adds_rules,
}
use qubership_opensearch.Http.Yields.{OnOk, get_array_data-Yields}
use qubership_opensearch.Replication.Manager.{
  ReplicationManager, stop_index, stop_indices, stop_indices_replication,
}
use qubership_opensearch.Replication.Indices.{
  is_service, get_indices_by_pattern_exclude_service, delete_indices_by_pattern, unlock_and_delete,
  delete_indices_by_pattern_with_unlock, delete_each, delete_indices,
}

-- A deletion in the events is of an index that is no service index.
abbrev pub DeletesRequest : ReplicationManager → Request → Type 0
DeletesRequest rm r =
    r.method ≡ Method.delete
    → (index : String) × (r.url ≡ rm.rest_client.url <> "/" <> index) × (is_service index ≡ false)

abbrev pub SparesServices : ReplicationManager → Event → Type 0
SparesServices rm (sent r) = DeletesRequest rm r
SparesServices rm _ = Unit

module _ (w : World) (rm : ReplicationManager) where
  post-spares :
      (path : String) (payload : Option Json)
      → Adds (SparesServices rm) (send_request w rm.rest_client Method.post path payload)
  post-spares path payload = Adds-send_request w rm.rest_client Method.post path payload (λ e. cc)

  get_array_data-spares :
      (path key : String) (test : String → Bool)
      → Adds (SparesServices rm) (get_array_data w rm.rest_client path key (λ s. pure (test s)))
  get_array_data-spares path key test =
      Adds-get_array_data w rm.rest_client path key _ (λ e. cc) (λ s. Adds-pure _)

  delete-spares :
      (index : String)
      → is_service index ≡ false
      → Adds (SparesServices rm) (send_request w rm.rest_client Method.delete index none)
  delete-spares index h =
      Adds-send_request w rm.rest_client Method.delete index none (λ e. (index, refl, h))

  stop_index-spares : (index : String) → Adds (SparesServices rm) (stop_index w rm index)
  unfolding stop_index
  stop_index-spares index = search (adds_rules, post-spares) depth 8

  stop_indices-spares :
      (indices : List String) → Adds (SparesServices rm) (stop_indices w rm indices)
  unfolding stop_indices
  stop_indices-spares [] = search adds_rules
  stop_indices-spares (index ∷ indices) =
      Adds-bind _ _ (stop_index-spares index) (λ _. stop_indices-spares indices)

  stop_indices_replication-spares :
      (indices : List String) → Adds (SparesServices rm) (stop_indices_replication w rm indices)
  unfolding stop_indices_replication
  stop_indices_replication-spares indices =
      Adds-bind _ _ (stop_indices-spares indices) (λ _. Adds-sleep 3000 tt)

  module _ (index : String) (free : is_service index ≡ false) where
    delete_indices_by_pattern-spares :
        Adds (SparesServices rm) (delete_indices_by_pattern w rm index)
    unfolding delete_indices_by_pattern
    delete_indices_by_pattern-spares =
        Adds-bind _ _ (delete-spares index free) (λ reply. search adds_rules)

    unlock_and_delete-spares : Adds (SparesServices rm) (unlock_and_delete w rm index)
    unfolding unlock_and_delete get_indices_by_pattern_exclude_service
    unlock_and_delete-spares = Adds-bind _ _ (get_array_data-spares _ _ _) λ indices.
        Adds-bind _ _ (stop_indices_replication-spares indices)
          λ _. delete_indices_by_pattern-spares

    delete_with_unlock-spares :
        Adds (SparesServices rm) (delete_indices_by_pattern_with_unlock w rm index)
    unfolding delete_indices_by_pattern_with_unlock
    delete_with_unlock-spares =
        Adds-bind _ _ (delete-spares index free)
          λ reply. search (adds_rules, unlock_and_delete-spares) depth 8

  delete_each-spares :
      (indices : List String)
      → All (λ s. not (is_service s) ≡ true) indices
      → Adds (SparesServices rm) (delete_each w rm indices)
  unfolding delete_each
  delete_each-spares [] h = search adds_rules
  delete_each-spares (index ∷ indices) (h, hs) =
      Adds-bind _ _ (delete_with_unlock-spares index (not-true→false _ h))
        λ _. delete_each-spares indices hs

  -- With the pattern "*" DeleteIndices deletes by name, and none of the names begins with a dot:
  -- every DELETE request that it sends, after a 403 too, is for an index that is no service index.
  pub delete_indices-SparesServices :
      rm.pattern ≡ "*" → Adds (SparesServices rm) (delete_indices w rm)
  unfolding delete_indices
  delete_indices-SparesServices all = rw ((eq_iff rm.pattern "*").1 all) (
      Adds-bind_of _ _ (get_array_data-spares _ _ _) λ indices log e. delete_each-spares indices (
        subst (OnOk _) e
          ((get_array_data-Yields (λ s. not (is_service s)) w rm.rest_client _ _).at log)))

  -- A deletion that is refused with 403 fails, also where replication was then stopped and the
  -- second deletion has succeeded: the caller is told of the 403 of the first response.
  pub delete_with_unlock-locked :
      (pattern' : String) (log : List Event) (b : Body)
      → w.respond log (request_of rm.rest_client Method.delete pattern' none true) ≡ answered 403 b
      → (unlock_and_delete w rm pattern'
          (log ++ sent (request_of rm.rest_client Method.delete pattern' none true) ∷ [])).0
        ≡ ok tt
      → (delete_indices_by_pattern_with_unlock w rm pattern' log).0
        ≡ err (message_status "can not delete indices by pattern" 403)
  unfolding delete_indices_by_pattern_with_unlock send_request send_basic_request require_ok ensure
      ◌>>=◌ pure
  delete_with_unlock-locked pattern' log b refused unlocked = ground arith
