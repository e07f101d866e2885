-- ===== src/Http/Client.antt =====
-- util/rest_client.go
use qubership_opensearch.Prelude.{
  ℕ, String, Bool, true, not, ◌&&◌, ◌==◌, ◌<>◌, leb, Option, none, some, List, [], ◌∷◌, ◌++◌,
  if◌then◌else◌, Dict, lookup,
}
use qubership_opensearch.Json.{Json, decode_text, decode_map, decode_list}
use qubership_opensearch.Http.Types.{
  Method, Request, Body, Outcome, failed, broken, answered, sent, World, Error, unmarshal,
  message_status,
}
use qubership_opensearch.Http.Action.{Exec, ok, pure, raise, lift, require_ok, ◌>>=◌, ◌>>◌}

pub record Credentials : Type 0 where
  pub username : String
  pub password : String

pub record RestClient : Type 0 where
  pub url : String
  pub credentials : Credentials

-- The three results of SendRequest.
pub record Reply : Type 0 where
  pub status_code : ℕ
  pub body : Body
  pub error : Option Error

abbrev no_body : Body
no_body = record { text = ""; document = none }

abbrev pub reply_of : Outcome → Reply
reply_of (failed e) = record { status_code = 0; body = no_body; error = some e }
reply_of (broken code e) = record { status_code = code; body = no_body; error = some e }
reply_of (answered code b) = record { status_code = code; body = b; error = none }

unfoldable pub auth_of : Credentials → Option (String × String)
auth_of c =
    if not (c.username == "") && not (c.password == "") then some (c.username, c.password) else none

abbrev pub request_of : RestClient → Method → String → Option Json → Bool → Request
request_of rc method path payload use_headers = record {
  method = method;
  url = rc.url <> "/" <> path;
  payload = payload;
  json_headers = use_headers;
  basic_auth = auth_of rc.credentials;
}

-- json.Unmarshal of a body into the type of the decoder
unfoldable pub unmarshal_to {ℓ} : {A : Type ℓ} → (Json → Option A) → Body → Exec A
unmarshal_to decode b = lift unmarshal (elim b.document [ none ↦ none | some v ↦ decode v ])

-- `data[key]`, with the zero value of a missing key
unfoldable pub item_of : String → Dict String → String
item_of key row = elim (lookup key row) [ none ↦ "" | some v ↦ v ]

-- The filter of GetArrayData is an action: one caller sends a request in it.
unfoldable pub filter_rows : String → (String → Exec Bool) → List (Dict String) → Exec (List String)
filter_rows key filter [] = pure []
filter_rows key filter (row ∷ rows) = do
  let item = item_of key row
  keep ← filter item
  rest ← filter_rows key filter rows
  pure (if keep then item ∷ rest else rest)

-- What follows sends, and so takes the world.
module _ (w : World) where
  unfoldable pub send_basic_request : RestClient → Method → String → Option Json → Bool → Exec Reply
  send_basic_request rc method path payload use_headers log =
      let request = request_of rc method path payload use_headers in
      (ok (reply_of (w.respond log request)), log ++ sent request ∷ [])

  unfoldable pub send_request : RestClient → Method → String → Option Json → Exec Reply
  send_request rc method path payload = send_basic_request rc method path payload true

  -- A status from 400 on is reported before an error of the body's read.
  unfoldable pub send_request_with_status_code_check :
      RestClient → Method → String → Option Json → Exec Body
  send_request_with_status_code_check rc method path payload = do
    reply ← send_request rc method path payload
    if leb 400 reply.status_code
        then raise (message_status "request returned status code" reply.status_code)
        else do require_ok reply.error; pure reply.body

  unfoldable pub get_array_data :
      RestClient → String → String → (String → Exec Bool) → Exec (List String)
  get_array_data rc path key filter = do
    reply ← send_request rc Method.get path none
    require_ok reply.error
    rows ← unmarshal_to (decode_list (decode_map decode_text)) reply.body
    filter_rows key filter rows
