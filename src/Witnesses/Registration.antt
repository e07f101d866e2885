-- ===== src/Witnesses/Registration.antt =====
-- Runs of the registration, and the health of the adapter.
use qubership_opensearch.Prelude.{inl, ◌≡◌, refl, false, Option, none, some, [], ◌∷◌, ◌++◌}
use qubership_opensearch.Json.{null}
use qubership_opensearch.Http.{Method, sent, ok, attempt, attempted, pure, raise, ◌>>=◌}
use qubership_opensearch.Adapter.Transport.{perform, request_to, process_body, do_request}
use qubership_opensearch.Adapter.Deletion.{v2}
use qubership_opensearch.Adapter.Accounts.{BaseProvider}
use qubership_opensearch.Adapter.Health.{get_health, color_of, determine_health_status}
use qubership_opensearch.Adapter.Health.Worst.{worse, determine_health_status-eq-worse}
use qubership_opensearch.Adapter.Registration.{
  Codec, Registration, State, do_registration_request, register_with_retry,
}
use qubership_opensearch.Adapter.Registration.Attempts.{
  Leaves, registration_contained, register_with_retry-once,
}
use qubership_opensearch.Witnesses.Worlds.{failing}

abbrev provider : BaseProvider
provider = record {
  protocol = "http";
  host = "opensearch";
  port = 9200;
  api_version = v2;
  generate = λ log. inl "s3cret_A1b";
}

abbrev codec : Codec
codec = record {
  encode_registration = λ r. null;
  encode_roles = λ r. null;
  decode_instruction = λ v. some (record { id = "i1"; additional_roles = [] });
}

abbrev registration : Registration
registration = record {
  adapter_address = "http://adapter:8080";
  adapter_credentials = ("adapter", "adapter");
  aggregator_address = "http://aggregator:8080";
  aggregator_credentials = ("aggregator", "aggregator");
  physical_database_id = "opensearch-1";
  labels = λ log. [];
  base = provider;
}

abbrev unregistered : State
unregistered = record { health = "UNKNOWN"; status = "running" }

registration_contained_example :
    (r : Option State) × ((do_registration_request failing codec 0 registration 7 unregistered []).0
      ≡ ok r)
    × Leaves failing codec 0 registration unregistered [] r
registration_contained_example =
    registration_contained failing codec 0 registration 7 unregistered []

register_with_retry-once_example :
    register_with_retry failing codec 0 registration 9 7 unregistered []
    ≡ do_registration_request failing codec 0 registration 7 unregistered []
register_with_retry-once_example =
    register_with_retry-once failing codec 0 registration 9 7 unregistered []

determine_health_status-eq-worse_example : determine_health_status failing "UNKNOWN" "UP" [] ≡ (
  ok (worse "PROBLEM" "UNKNOWN"),
  [] ++ sent (request_to Method.get "/_cat/health?format=json" none false) ∷ [],
)
unfolding get_health color_of do_request process_body perform attempt attempted pure raise ◌>>=◌
determine_health_status-eq-worse_example =
    determine_health_status-eq-worse failing "UNKNOWN" "UP" "PROBLEM" [] _ refl
