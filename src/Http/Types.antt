-- ===== src/Http/Types.antt =====
-- Requests, the outcomes of requests, errors, and the world that answers.
use qubership_opensearch.Prelude.{ℕ, String, Bool, Option, List, ◌⊎◌}
use qubership_opensearch.Json.{Json}

pub data Method : Type 0 where
  get head put post patch delete : Method

-- `payload` is the document that the code renders into the request's body; `nil` is `none`.
pub record Request : Type 0 where
  pub method : Method
  pub url : String
  pub payload : Option Json
  pub json_headers : Bool
  pub basic_auth : Option (String × String)

-- The bytes that came back, with the document that they are, if they are one.
pub record Body : Type 0 where
  pub text : String
  pub document : Option Json

-- `err.Error()` where the program reads it, and the constant part of a message with its arguments.
pub data Error : Type 0 where
  transport : String → Error  -- from net/http or io
  unmarshal : Error  -- from encoding/json
  message : String → Error
  message_status : String → ℕ → Error
  message_texts : String → List String → Error
  wrapped : String → Error → Error

pub data Outcome : Type 0 where
  failed : Error → Outcome  -- no response: the request cannot be built or sent
  broken : ℕ → Error → Outcome  -- a status, and a body that cannot be read
  answered : ℕ → Body → Outcome

-- The status of the disaster recovery that the operator writes. An empty message leaves the message
-- as it is, and the state of the users' recovery is written only where there is a DBaaS adapter.
pub record DrStatus : Type 0 where
  pub mode : String
  pub status : String
  pub message : Option (String ⊎ Error)
  pub users_recovery_state : Option String

-- How far the pods of a stateful set have been restarted, as the resource's status keeps it.
pub record SetStatus : Type 0 where
  pub name : String
  pub last_generation : ℕ
  pub updated_replicas : List ℕ

-- A change of a Kubernetes resource. A pod of a stateful set is the set's name and the ordinal, which
-- `%s-%d` makes its name of.
pub data Call : Type 0 where
  set_status : DrStatus → Call
  set_users_recovery_state : String → Call
  enable_service : String → Call
  disable_service : String → Call
  scale_deployment : String → ℕ → Call
  update_stateful_set : String → Call
  delete_pod : String → ℕ → Call
  set_rolling_update_status : String → Call
  set_stateful_set_statuses : List SetStatus → Call
  update_secret : String → Call
  set_credentials : String → String → String → Call  -- a secret, a user name and a password
  annotate_deployment : String → List (String × String) → Call
  set_condition : String → Option Error → Call  -- the type, and the error that its message tells
  run_command : String → String → Call  -- a pod and a script

-- What a run leaves behind. A sleep is in milliseconds.
pub data Event : Type 0 where
  sent : Request → Event
  slept : ℕ → Event
  drew_uuid : Event
  dialled : String → Event  -- http.Client.Get of a URL, whose response is not looked at
  called : Call → Event
  locked : Bool → Event  -- the watcher's lock is taken or given back
  watched : Bool → Event  -- the watcher is started or paused
  hashed : String → Event  -- the hash of the configuration is stored
  stored_hash : String → String → Event  -- the hash of a secret is stored under a name
  looked_at : String → ℕ → Bool → Event  -- a pod is looked at: whether it is ready

-- What the program does not implement: the clusters, the random numbers and regexp.Compile,
-- which fails on a text that is no regular expression.
pub record World : Type 0 where
  pub respond : List Event → Request → Outcome
  pub uuid : List Event → String
  pub call : List Event → Call → Option Error
  -- the text of the error, if there is one
  pub dial : List Event → String → Option String
  pub compile : String → Option (String → Bool)
