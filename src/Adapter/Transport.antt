-- ===== src/Adapter/Transport.antt =====
-- The requests of the adapter: the methods `Do` of opensearch-dbaas-adapter/api, which hand a request
-- to the OpenSearch client, and DoRequest and ProcessBody of opensearch-dbaas-adapter/common. The
-- client's address and credentials are its own, so that a request has a path for its URL here. The
-- body of a response is read later, or not at all.
use qubership_opensearch.Prelude.{
  ◌==◌, if◌then◌else◌, String, Bool, false, Option, none, [], ◌∷◌, ◌++◌,
}
use qubership_opensearch.Json.{Json}
use qubership_opensearch.Http.{
  Method, Request, Outcome, failed, broken, answered, World, Exec, ok, sent, pure, raise,
  unmarshal_to, ◌>>=◌,
}

abbrev pub request_to : Method → String → Option Json → Bool → Request
request_to method path payload json_headers = record {
  method = method;
  url = path;
  payload = payload;
  json_headers = json_headers;
  basic_auth = none;
}

unfoldable pub perform : World → Method → String → Option Json → Bool → Exec Outcome
perform w method path payload json_headers log =
    let request = request_to method path payload json_headers in
    (ok (w.respond log request), log ++ sent request ∷ [])

-- ProcessBody of common/common.go: an empty body leaves the result at its zero value.
unfoldable pub process_body {ℓ} : {A : Type ℓ} → (Json → Option A) → A → Outcome → Exec A
process_body decode zero_value (failed e) = raise e
process_body decode zero_value (broken code e) = raise e
process_body decode zero_value (answered code b) =
    if b.text == "" then pure zero_value else unmarshal_to decode b

-- DoRequest, for a GET request.
unfoldable pub do_request {ℓ} : {A : Type ℓ} → World → String → (Json → Option A) → A → Exec A
do_request w path decode zero_value = do
  outcome ← perform w Method.get path none false
  process_body decode zero_value outcome
