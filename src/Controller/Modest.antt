-- ===== src/Controller/Modest.antt =====
-- The reconcilers of this module store no hash of the OpenSearch secret, which only a cycle commits.
use qubership_opensearch.Prelude.{
  ℕ, ◌⊎◌, inl, inr, ◌≡◌, ◌≢◌, refl, eq_iff, String, Bool, false, not, ◌||◌, ◌==◌, eqb, is_some,
  Option, none, some, List,
}
use qubership_opensearch.Json.{Json}
use qubership_opensearch.Http.{World, Error, RestClient, Credentials, Exec}
use qubership_opensearch.Http.Trace.{
  Adds, Adds-pure, Adds-raise, Adds-if, Adds-bind, Adds-require_ok, Adds-call, Adds-note,
  Adds-send_request,
}
use qubership_opensearch.Http.Poll.{Adds-poll_immediate}
use qubership_opensearch.SlowLog.{Params}
use qubership_opensearch.Opensearch.{Deployment, Kube}
use qubership_opensearch.Controller.{
  resource_hash, change_deployment, add_annotations_to_deployment, scale, is_deployment_ready,
  scale_deployment_with_check, scale_deployment_for_no_wait, scale_deployment_for_dr,
  secret_hash_if_any, restart_if_changed, curator_reconcile, dbaas_adapter_reconcile,
  elasticsearch_dbaas_adapter_reconcile, dashboards_reconcile, apply_settings, external_reconcile,
}
use qubership_opensearch.Controller.Cycle.{Instance}
use qubership_opensearch.Controller.Cycle.Committed.{
  IsNoCommit, hash-Adds, found-Adds, credentials-Adds,
}
use qubership_opensearch.Controller.Monitoring.{
  SlowLogWatcher, Monitoring, start_or_stop, update_slow_log, have_credentials_changed,
  restart_monitoring, monitoring_reconcile,
}

other_hash : (name : String) → (name == "secret.opensearch") ≡ false → name ≢ "secret.opensearch"
other_hash name differs same = cc ((eq_iff name "secret.opensearch").1 same, differs)

module _ (w : World) (k : Kube) (attempts : ℕ) where
  stored-Adds : (name : String) → Adds IsNoCommit (resource_hash name)
  unfolding resource_hash
  stored-Adds name = record { at = λ log. (Adds-pure _).at log }

  change-Adds :
      (d : Deployment ⊎ Error) (change : Exec (Unit {0}))
      → Adds IsNoCommit change
      → Adds IsNoCommit (change_deployment w k attempts d change)
  unfolding change_deployment
  change-Adds (inl d) change h = h
  change-Adds (inr e) change h = Adds-raise e

  annotations-Adds :
      (name : String) (annotations : List (String × String))
      → Adds IsNoCommit (add_annotations_to_deployment w k attempts name annotations)
  unfolding add_annotations_to_deployment
  annotations-Adds name annotations = record {
    at = λ log. (change-Adds (k.find_deployment log name) _ (Adds-call w _ tt)).at log;
  }

  scale-Adds : (name : String) (replicas : ℕ) → Adds IsNoCommit (scale w k attempts name replicas)
  unfolding scale
  scale-Adds name replicas = record {
    at = λ log. (change-Adds (k.find_deployment log name) _ (Adds-call w _ tt)).at log;
  }

  available-Adds : (name : String) → Adds IsNoCommit (is_deployment_ready w k attempts name)
  unfolding is_deployment_ready
  available-Adds name = record { at = λ log. (Adds-pure _).at log }

  no_wait-Adds :
      (name : String) (replicas : ℕ) (no_wait : Bool)
      → Adds IsNoCommit (scale_deployment_for_no_wait w k attempts name replicas no_wait)
  unfolding scale_deployment_for_no_wait scale_deployment_with_check
  no_wait-Adds name replicas no_wait = Adds-if no_wait _ _ (scale-Adds name replicas) (
      Adds-bind _ _ (scale-Adds name replicas)
        λ _. Adds-poll_immediate attempts _ none λ _. available-Adds name)

  -- Configure of the curator and of both adapters.
  pub scale_for_dr-Adds :
      (name : String) (dr : Option (String × Bool))
      → Adds IsNoCommit (scale_deployment_for_dr w k attempts name dr)
  unfolding scale_deployment_for_dr
  scale_for_dr-Adds name none = Adds-pure _
  scale_for_dr-Adds name (some (mode, no_wait)) =
      Adds-if (mode == "active") _ _ (no_wait-Adds name 1 no_wait) (
        Adds-if (mode == "standby" || mode == "disable") _ _ (no_wait-Adds name 0 no_wait)
          (Adds-pure _))

  restart-Adds :
      (deployment hash_name opensearch_hash hash : String)
      → hash_name ≢ "secret.opensearch"
      → Adds IsNoCommit (restart_if_changed w k attempts deployment hash_name opensearch_hash hash)
  unfolding restart_if_changed
  restart-Adds deployment hash_name opensearch_hash hash other =
      Adds-bind _ _ (stored-Adds _) λ stored_opensearch. Adds-bind _ _ (stored-Adds _) λ stored.
        Adds-bind _ _ (Adds-if _ _ _ (annotations-Adds _ _) (Adds-pure _)) λ _. Adds-note _ other

  if_any-Adds :
      (hash_name secret : String)
      → Adds IsNoCommit (secret_hash_if_any w k attempts hash_name secret)
  unfolding secret_hash_if_any
  if_any-Adds hash_name secret =
      Adds-if (secret == "") _ _ (Adds-pure _) (hash-Adds w k attempts hash_name secret)

  pub curator-Adds :
      (deployment secret hash : String)
      → Adds IsNoCommit (curator_reconcile w k attempts deployment secret hash)
  unfolding curator_reconcile
  curator-Adds deployment secret hash =
      Adds-bind _ _ (hash-Adds w k attempts _ secret) λ _. restart-Adds _ _ _ _ (other_hash _ refl)

  pub dbaas_adapter-Adds :
      (deployment secret hash : String)
      → Adds IsNoCommit (dbaas_adapter_reconcile w k attempts deployment secret hash)
  unfolding dbaas_adapter_reconcile
  dbaas_adapter-Adds deployment secret hash =
      Adds-bind _ _ (hash-Adds w k attempts _ secret) λ _. restart-Adds _ _ _ _ (other_hash _ refl)

  pub elasticsearch_dbaas_adapter-Adds :
      (deployment secret hash : String)
      → Adds IsNoCommit (elasticsearch_dbaas_adapter_reconcile w k attempts deployment secret hash)
  unfolding elasticsearch_dbaas_adapter_reconcile
  elasticsearch_dbaas_adapter-Adds deployment secret hash =
      Adds-bind _ _ (hash-Adds w k attempts _ secret) λ _. restart-Adds _ _ _ _ (other_hash _ refl)

  pub dashboards-Adds :
      (deployment secret hash : String)
      → Adds IsNoCommit (dashboards_reconcile w k attempts deployment secret hash)
  unfolding dashboards_reconcile
  dashboards-Adds deployment secret hash =
      Adds-bind _ _ (if_any-Adds _ secret) λ _. restart-Adds _ _ _ _ (other_hash _ refl)

  settings-Adds :
      (rc : RestClient) (settings : Json)
      → Adds IsNoCommit (apply_settings w k attempts rc settings)
  unfolding apply_settings
  settings-Adds rc settings = Adds-bind _ _ (Adds-send_request w _ _ _ _ tt) λ reply.
      Adds-bind _ _ (Adds-require_ok _)
        λ _. Adds-if (eqb reply.status_code 200) _ _ (Adds-pure _) (Adds-raise _)

  pub external-Adds :
      (rc : RestClient) (settings : Json) (hash : String)
      → Adds IsNoCommit (external_reconcile w k attempts rc settings hash)
  unfolding external_reconcile
  external-Adds rc settings hash = Adds-bind _ _ (stored-Adds _) λ stored.
      Adds-bind _ _ (Adds-if (stored == hash) _ _ (Adds-pure _) (settings-Adds rc settings))
        λ _. Adds-note _ (other_hash _ refl)

  module _ (watcher : SlowLogWatcher)
      (starts : (c : Credentials) (p : Params) → Adds IsNoCommit (watcher.start c p))
      (stops : (c : Credentials) → Adds IsNoCommit (watcher.stop c)) where
    start_or_stop-Adds :
        (slow_queries : Option Params) (c : Credentials)
        → Adds IsNoCommit (start_or_stop w k attempts watcher slow_queries c)
    unfolding start_or_stop
    start_or_stop-Adds none c = stops c
    start_or_stop-Adds (some p) c = starts c p

    slow_log-Adds :
        (i : Instance) (slow_queries : Option Params)
        → Adds IsNoCommit (update_slow_log w k attempts watcher i slow_queries)
    unfolding update_slow_log
    slow_log-Adds i slow_queries = record {
      at = λ log.
          (Adds-if (is_some slow_queries || not (watcher.is_stopped log)) _ _
              (Adds-bind _ _ (credentials-Adds w k attempts i) (start_or_stop-Adds slow_queries))
              (Adds-pure _)).at
            log;
    }

    credentials_changed-Adds :
        (opensearch_hash old_hash : String)
        → Adds IsNoCommit (have_credentials_changed w k attempts watcher opensearch_hash old_hash)
    unfolding have_credentials_changed
    credentials_changed-Adds opensearch_hash old_hash =
        Adds-bind _ _ (stored-Adds _)
          λ stored. Adds-bind _ _ (stored-Adds _) λ stored_old. Adds-pure _

    restart_monitoring-Adds :
        (name opensearch_hash old_hash hash : String)
        → Adds IsNoCommit
            (restart_monitoring w k attempts watcher name opensearch_hash old_hash hash)
    unfolding restart_monitoring
    restart_monitoring-Adds name opensearch_hash old_hash hash =
        Adds-bind _ _ (credentials_changed-Adds _ _) λ changed.
          Adds-bind _ _ (stored-Adds _) λ stored. Adds-if _ _ _ (annotations-Adds _ _) (Adds-pure _)

    pub monitoring-Adds :
        (i : Instance) (m : Monitoring) (hash : String)
        → Adds IsNoCommit (monitoring_reconcile w k attempts watcher i m hash)
    unfolding monitoring_reconcile
    monitoring-Adds i m hash = Adds-bind _ _ (if_any-Adds _ _) λ _.
        Adds-bind _ _ (hash-Adds w k attempts _ _) λ _.
          Adds-bind _ _ (restart_monitoring-Adds _ _ _ _) λ _.
            Adds-bind _ _ (found-Adds w k attempts m.hash) λ _.
              Adds-bind _ _ (credentials_changed-Adds _ _) λ _. Adds-bind _ _ (stored-Adds _) λ _.
                Adds-bind _ _ (Adds-if _ _ _ (slow_log-Adds i m.slow_queries) (Adds-pure _)) λ _.
                  Adds-bind _ _ (Adds-note _ (other_hash _ refl)) λ _.
                    Adds-bind _ _ (Adds-note _ (other_hash _ refl))
                      λ _. Adds-note _ (other_hash _ refl)
