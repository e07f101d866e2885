-- ===== src/Controller.antt =====
-- The operator's other reconcilers, which restart a deployment when a secret has changed and scale it in
-- a switchover. The hashes in `ResourceHashes` are those that the events say were stored.
pub mod Cycle
pub mod Restarts
pub mod Monitoring
pub mod Modest
use qubership_opensearch.Prelude.{
  ℕ, ◌⊎◌, inl, inr, String, Bool, true, false, not, ◌&&◌, ◌||◌, ◌==◌, ◌<>◌, eqb, leb, Option, none,
  some, List, [], ◌∷◌, if◌then◌else◌,
}
use qubership_opensearch.Json.{Json}
use qubership_opensearch.Http.{
  Event, stored_hash, Method, World, Error, message_texts, RestClient, send_request, Exec, pure,
  raise, require_ok, call, note, scale_deployment, annotate_deployment, ◌>>=◌, ◌>>◌,
}
use qubership_opensearch.Http.Poll.{poll_immediate}
use qubership_opensearch.Opensearch.{Deployment, Kube}
use qubership_opensearch.Opensearch.Secrets.{calculate_secret_data_hash}

-- r.ResourceHashes[name]
unfoldable pub stored_from : String → String → List Event → String
stored_from now name [] = now
stored_from now name (stored_hash other value ∷ es) =
    stored_from (if other == name then value else now) name es
stored_from now name (e ∷ es) = stored_from now name es

unfoldable pub resource_hash : String → Exec String
resource_hash name log = pure (stored_from "" name log) log

unfoldable pub has_changed : String → String → Bool
has_changed stored current = not (stored == "") && not (stored == current)

-- util.Min
unfoldable pub min : ℕ → ℕ → ℕ
min a b = if not (leb b a) then a else b

unfoldable pub is_available : Deployment ⊎ Error → Bool
is_available (inr e) = false
is_available (inl d) = eqb d.replicas (min d.ready_replicas d.updated_replicas)

module _ (w : World) (k : Kube) (attempts : ℕ) where
  unfoldable pub change_deployment : Deployment ⊎ Error → Exec (Unit {0}) → Exec (Unit {0})
  change_deployment (inr e) change = raise e
  change_deployment (inl d) change = change

  unfoldable pub add_annotations_to_deployment : String → List (String × String) → Exec (Unit {0})
  add_annotations_to_deployment name annotations log =
      change_deployment (k.find_deployment log name) (call w (annotate_deployment name annotations))
        log

  unfoldable pub scale : String → ℕ → Exec (Unit {0})
  scale name replicas log =
      change_deployment (k.find_deployment log name) (call w (scale_deployment name replicas)) log

  unfoldable pub is_deployment_ready : String → Exec Bool
  is_deployment_ready name log = pure (is_available (k.find_deployment log name)) log

  unfoldable pub scale_deployment_with_check : String → ℕ → Exec (Unit {0})
  scale_deployment_with_check name replicas = do
    scale name replicas
    poll_immediate attempts (λ _. is_deployment_ready name) none

  unfoldable pub scale_deployment_for_no_wait : String → ℕ → Bool → Exec (Unit {0})
  scale_deployment_for_no_wait name replicas no_wait =
      if no_wait then scale name replicas else scale_deployment_with_check name replicas

  -- The mode is in lower case; it is none without a disaster recovery or without a mode in the status.
  unfoldable pub scale_deployment_for_dr : String → Option (String × Bool) → Exec (Unit {0})
  scale_deployment_for_dr name none = pure tt
  scale_deployment_for_dr name (some (mode, no_wait)) =
      if mode == "active"
      then scale_deployment_for_no_wait name 1 no_wait
      else if mode == "standby" || mode == "disable"
      then scale_deployment_for_no_wait name 0 no_wait
      else pure tt

  -- calculateSecretDataHash with the stored hash.
  unfoldable pub secret_hash : String → String → Exec String
  secret_hash hash_name secret = do
    stored ← resource_hash hash_name
    calculate_secret_data_hash w k stored secret

  -- The hash of a secret that need not be named.
  unfoldable pub secret_hash_if_any : String → String → Exec String
  secret_hash_if_any hash_name secret =
      if secret == "" then pure "" else secret_hash hash_name secret

  -- Where one of two hashes has changed, the annotations that hold them restart the pods.
  unfoldable pub restart_if_changed : String → String → String → String → Exec (Unit {0})
  restart_if_changed deployment hash_name opensearch_hash hash = do
    stored_opensearch ← resource_hash "secret.opensearch"
    stored ← resource_hash hash_name
    if has_changed stored_opensearch opensearch_hash || has_changed stored hash
        then add_annotations_to_deployment deployment
            (("secret.opensearch", opensearch_hash) ∷ (hash_name, hash) ∷ [])
        else pure tt
    note (stored_hash hash_name hash)

  -- The third text is the hash of the OpenSearch secret that the cycle has calculated.
  unfoldable pub curator_reconcile : String → String → String → Exec (Unit {0})
  curator_reconcile deployment secret opensearch_hash = do
    hash ← secret_hash "secret.curator" secret
    restart_if_changed deployment "secret.curator" opensearch_hash hash

  unfoldable pub dbaas_adapter_reconcile : String → String → String → Exec (Unit {0})
  dbaas_adapter_reconcile deployment secret opensearch_hash = do
    hash ← secret_hash "secret.dbaasAdapter" secret
    restart_if_changed deployment "secret.dbaasAdapter" opensearch_hash hash

  unfoldable pub elasticsearch_dbaas_adapter_reconcile : String → String → String → Exec (Unit {0})
  elasticsearch_dbaas_adapter_reconcile deployment secret opensearch_hash = do
    hash ← secret_hash "secret.elasticsearchDbaasAdapter" secret
    restart_if_changed deployment "secret.elasticsearchDbaasAdapter" opensearch_hash hash

  unfoldable pub dashboards_reconcile : String → String → String → Exec (Unit {0})
  dashboards_reconcile deployment secret opensearch_hash = do
    hash ← secret_hash_if_any "secret.dashboards" secret
    restart_if_changed deployment "secret.dashboards" opensearch_hash hash

  -- The settings of an OpenSearch that the operator does not run. The hash is that of its part of the
  -- resource, and the document its `config`.
  unfoldable pub apply_settings : RestClient → Json → Exec (Unit {0})
  apply_settings rc settings = do
    reply ← send_request w rc Method.put "_cluster/settings" (some settings)
    require_ok reply.error
    if eqb reply.status_code 200
        then pure tt
        else raise (message_texts "setting applying went wrong" (reply.body.text ∷ []))

  unfoldable pub external_reconcile : RestClient → Json → String → Exec (Unit {0})
  external_reconcile rc settings hash = do
    stored ← resource_hash "spec.externalOpenSearch"
    if stored == hash then pure tt else apply_settings rc settings
    note (stored_hash "spec.externalOpenSearch" hash)
