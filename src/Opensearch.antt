-- ===== src/Opensearch.antt =====
-- controllers/opensearch_reconciler.go: the rolling update of the OpenSearch pods, the security
-- configuration and the repository of the snapshots. Kubernetes is a record of what its reads give;
-- its changes are calls of the world.
pub mod Rolling
pub mod Pods
pub mod Settings
pub mod Trace
pub mod Mapping
pub mod Secrets
pub mod Credentials
pub mod Snapshots
pub mod Security
use qubership_opensearch.Prelude.{ℕ, String, Bool, Option, List, ◌⊎◌, Dict}
use qubership_opensearch.Json.{Fields}
use qubership_opensearch.Http.{Event, Error, Body}

-- What the reconcilers read of a deployment.
pub record Deployment : Type 0 where
  pub replicas : ℕ
  pub ready_replicas : ℕ
  pub updated_replicas : ℕ

-- What the reconciler reads of a stateful set.
pub record StatefulSet : Type 0 where
  pub name : String
  pub on_delete : Bool  -- the update strategy is OnDelete
  pub replicas : ℕ
  pub updated_replicas : ℕ
  pub generation : ℕ

-- The rolling update in the status of the resource is kept by Http.SetStatus and this.
pub record Kube : Type 0 where
  pub find_stateful_set : List Event → String → StatefulSet ⊎ Error
  -- SetControllerReference
  pub own : List Event → String → Option Error
  -- which containers of the pod of a set with that ordinal are ready
  pub find_pod : List Event → String → ℕ → List Bool ⊎ Error
  -- the data of a secret
  pub find_secret : List Event → String → Dict Body ⊎ Error
  pub find_deployment : List Event → String → Deployment ⊎ Error
  -- SHA-256 of the data's JSON
  pub hash : Dict Body → String
  -- yaml.Unmarshal into a map
  pub read_yaml : String → Fields ⊎ Error
