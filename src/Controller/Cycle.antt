-- ===== src/Controller/Cycle.antt =====
-- Reconcile in controllers/opensearchservice_controller.go: a cycle of all reconcilers, with the condition that
-- it leaves in the status of the resource.
pub mod Outcome
pub mod Committed
use qubership_opensearch.Prelude.{
  ℕ, ◌⊎◌, inl, inr, String, Bool, true, false, not, ◌&&◌, ◌==◌, ◌<>◌, eqb, is_some, Option, none,
  some, List, [], ◌∷◌, if◌then◌else◌,
}
use qubership_opensearch.Http.{
  Event, stored_hash, Method, World, Error, message, RestClient, Credentials, send_request, Exec,
  Result, ok, err, panicked, pure, raise, attempt, call, note, sleep, deferred, set_condition,
  ◌>>=◌, ◌>>◌,
}
use qubership_opensearch.Http.Poll.{poll_immediate}
use qubership_opensearch.Opensearch.{Kube}
use qubership_opensearch.Opensearch.Secrets.{parse_secret_credentials}
use qubership_opensearch.Controller.{secret_hash}

-- The interface ReconcileService, without Status, which does nothing in every implementation.
pub record ReconcileService : Type 0 where
  pub reconcile : Exec (Unit {0})
  pub configure : Exec (Unit {0})

-- What the cycle reads of the resource.
pub record Instance : Type 0 where
  pub name : String
  pub has_opensearch : Bool
  pub is_external : Bool

-- The reconcilers of the parts that the resource has.
pub record Parts : Type 0 where
  pub opensearch : Option ReconcileService
  pub disaster_recovery : Option ReconcileService
  pub dashboards : Option ReconcileService
  pub monitoring : Option ReconcileService
  pub dbaas_adapter : Option ReconcileService
  pub elasticsearch_dbaas_adapter : Option ReconcileService
  pub curator : Option ReconcileService
  pub external_opensearch : Option ReconcileService

-- append(reconcilers, …) under `!= nil`, for each part in turn
unfoldable pub present : List (Option ReconcileService) → List ReconcileService
present [] = []
present (none ∷ parts) = present parts
present (some s ∷ parts) = s ∷ present parts

unfoldable pub build_reconcilers : Parts → List ReconcileService
build_reconcilers p = present (
    p.opensearch ∷ p.disaster_recovery ∷ p.dashboards ∷ p.monitoring ∷ p.dbaas_adapter
    ∷ p.elasticsearch_dbaas_adapter ∷ p.curator ∷ p.external_opensearch ∷ [])

abbrev pub secret_name : Instance → String
secret_name i = i.name <> "-secret"

module _ (w : World) (k : Kube) (attempts : ℕ) where
  unfoldable pub parse_opensearch_credentials : Instance → Exec Credentials
  parse_opensearch_credentials i =
      parse_secret_credentials w k
        (if i.is_external then secret_name i else secret_name i <> "-old")

  -- The argument is the URL with the client that could be configured, or the error of that.
  unfoldable pub check_opensearch_is_ready : Instance → String ⊎ Error → Exec Bool
  check_opensearch_is_ready i (inr e) = pure false
  check_opensearch_is_ready i (inl url) = do
    c ← parse_opensearch_credentials i
    reply ← send_request w (record { url = url; credentials = c }) Method.get "" none
    pure (not (is_some reply.error) && eqb reply.status_code 200)

  unfoldable pub waited_of : (Unit {0}) ⊎ Error → Exec (Unit {0})
  waited_of (inl done) = pure tt
  waited_of (inr e) = raise (message "OpenSearch is not ready after the timeout")

  unfoldable pub wait_until_ready : Instance → String ⊎ Error → Exec (Unit {0})
  wait_until_ready i client =
      if i.has_opensearch
      then (do
        waited ← attempt (poll_immediate attempts (λ _. check_opensearch_is_ready i client) none)
        waited_of waited)
      else pure tt

  unfoldable pub reconcile_all : List ReconcileService → Exec (Unit {0})
  reconcile_all [] = pure tt
  reconcile_all (s ∷ ss) = do s.reconcile; reconcile_all ss

  unfoldable pub configure_all : List ReconcileService → Exec (Unit {0})
  configure_all [] = pure tt
  configure_all (s ∷ ss) = do s.configure; configure_all ss

  -- The part of the cycle behind the `defer`. The reconcilers get the hash, which is global.
  unfoldable pub run_cycle : Instance → String ⊎ Error → (String → Parts) → Exec (Unit {0})
  run_cycle i client parts = do
    hash ← secret_hash w k attempts "secret.opensearch" (secret_name i)
    reconcile_all (build_reconcilers (parts hash))
    wait_until_ready i client
    configure_all (build_reconcilers (parts hash))
    note (stored_hash "secret.opensearch" hash)

  -- The deferred function. On a panic `err` is nil, since every error ends the cycle at once.
  unfoldable pub close_cycle : Result (Unit {0}) → Exec (Unit {0})
  close_cycle (err e) = call w (set_condition "Failed" (some e))
  close_cycle (ok done) = call w (set_condition "Successful" none)
  close_cycle (panicked text) = call w (set_condition "Successful" none)

  -- A resource that is not found is no error.
  unfoldable pub reconcile :
      Option Instance ⊎ Error → String ⊎ Error → (String → Parts) → Exec (Unit {0})
  reconcile (inr e) client parts = do sleep 5000; raise e
  reconcile (inl none) client parts = sleep 5000
  reconcile (inl (some i)) client parts = do
    sleep 5000
    call w (set_condition "In progress" none)
    deferred (run_cycle i client parts) close_cycle
