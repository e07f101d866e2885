-- ===== src/Witnesses/Worlds.antt =====
-- Worlds that answer every request alike, and the parameters of the examples.
use qubership_opensearch.Prelude.{
  ℕ, String, true, starts_with, if◌then◌else◌, none, some, List, [], ◌∷◌,
}
use qubership_opensearch.Prelude.Int.{pos}
use qubership_opensearch.Json.{Json, object, array, texts, str, num}
use qubership_opensearch.Http.{Request, Outcome, failed, answered, World, transport, RestClient}
use qubership_opensearch.Replication.Manager.{ReplicationManager}

abbrev pub world_of : (Request → Outcome) → World
world_of respond = record {
  respond = λ log r. respond r;
  uuid = λ log. "7f9c24e8";
  call = λ log c. none;
  dial = λ log url. some "connection refused";
  compile = λ text. some (λ s. true);
}

abbrev pub answering : ℕ → Json → World
answering code doc = world_of (λ r. answered code (record { text = "{…}"; document = some doc }))

abbrev pub failing : World
failing = world_of (λ r. failed (transport "EOF"))

abbrev pub rest_client : RestClient
rest_client = record {
  url = "http://opensearch:9200";
  credentials = record { username = "admin"; password = "admin" };
}

abbrev pub manager : ReplicationManager
manager = record { rest_client = rest_client; remote_url = "other:9300"; pattern = "*" }

-- An index that has caught up.
abbrev details : Json
details = object (
    ("leader_checkpoint", num (pos 5))
    ∷ ("follower_checkpoint", num (pos 5))
    ∷ ("seq_no", num (pos 5))
    ∷ [])

abbrev pub syncing : Json
syncing = object (
    ("status", str "SYNCING")
    ∷ ("reason", str "User initiated")
    ∷ ("syncing_details", details)
    ∷ [])

-- A document that decodes as a list of rules, and as the status of an index.
abbrev pub rule : String → List String → ℕ → ℕ → Json
rule name failed_indices success failed_start = object (
    ("name", str name)
    ∷ ("pattern", str "*")
    ∷ ("num_success_start_replication", num (pos success))
    ∷ ("num_failed_start_replication", num (pos failed_start))
    ∷ ("failed_indices", texts failed_indices)
    ∷ [])

abbrev pub rules : List Json → Json
rules rs = object (("autofollow_stats", array rs) ∷ [])

-- A document that decodes as the list of the rules, as the replicated indices and as the status of
-- an index.
abbrev pub everything : Json → Json
everything r = object (
    ("autofollow_stats", array (r ∷ []))
    ∷ ("index_stats", object (("orders", object []) ∷ []))
    ∷ ("status", str "SYNCING")
    ∷ ("reason", str "")
    ∷ ("syncing_details", details)
    ∷ [])

abbrev listing : Json
listing = array (object (("index", str "orders") ∷ ("health", str "green") ∷ []) ∷ [])

-- A cluster with one index and one rule, where all is well.
abbrev pub healthy : World
healthy = world_of (λ r. answered 200 (record {
  text = "{…}";
  document = some (
      if starts_with r.url "http://opensearch:9200/_cat/"
      then listing
      else everything (rule "dr-replication" [] 1 0));
}))
