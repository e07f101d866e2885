-- ===== src/Adapter/Registration.antt =====
-- opensearch-dbaas-adapter/physical/physical.go: the registration of the adapter with the DBaaS
-- aggregator. The types of the messages are those of a library, so their encodings are arguments. A
-- `panic(err)` of the code is an error here: the deferred function recovers both.
pub mod Attempts
use qubership_opensearch.Prelude.{
  ℕ, zero, suc, ◌⊎◌, inl, inr, String, Bool, true, false, not, ◌==◌, ◌<>◌, eqb, leb, any,
  filter_bool, Option, none, some, List, [], ◌∷◌, ◌++◌, Dict, if◌then◌else◌,
}
use qubership_opensearch.Prelude.Int.{ℤ, pos, negsuc}
use qubership_opensearch.Json.{Json, null, Fields, find, get_field, decode_list, decode_int, struct}
use qubership_opensearch.Http.{
  Event, sent, Method, Request, Outcome, failed, broken, answered, World, Error, message,
  message_status, message_texts, wrapped, Exec, Result, ok, err, panicked, pure, raise, panic,
  attempt, ◌>>=◌, ◌>>◌,
}
use qubership_opensearch.Adapter.Transport.{process_body}
use qubership_opensearch.Adapter.Roles.{supported_role_types}
use qubership_opensearch.Adapter.Deletion.{Resource, ApiVersion, v1, v2}
use qubership_opensearch.Adapter.Databases.{convert_any_to_string}
use qubership_opensearch.Adapter.Accounts.{
  BaseProvider, Connection, get_extended_connection_properties, Account, create_user_by_prefix,
  generate_uuid,
}

-- dao.AdditionalRole: each element of the properties is a map.
pub record AdditionalRole : Type 0 where
  pub id : String
  pub connection_properties : List Fields

-- dao.PhysicalDatabaseRegistrationResponse, whose other fields are those of its Instruction.
pub record Instruction : Type 0 where
  pub id : String
  pub additional_roles : List AdditionalRole

pub record Success : Type 0 where
  pub id : String
  pub connection_properties : List Connection
  pub resources : List Resource

-- dao.PhysicalDatabaseRoleRequest
pub record RoleRequest : Type 0 where
  pub success : List Success
  pub failure : Option (String × Error)

-- What the registration tells of the adapter. Version 2 tells its roles, whether it uses TLS, and its status.
pub record RegistrationRequest : Type 0 where
  pub address : String
  pub credentials : String × String
  pub labels : Dict String
  pub details : Option (List String × Bool × String)

pub record Codec : Type 0 where
  pub encode_registration : RegistrationRequest → Json
  pub encode_roles : RoleRequest → Json
  pub decode_instruction : Json → Option Instruction

-- RegistrationProvider, less its state. The labels are what the file has when it is read.
pub record Registration : Type 0 where
  pub adapter_address : String
  pub adapter_credentials : String × String
  pub aggregator_address : String
  pub aggregator_credentials : String × String
  pub physical_database_id : String
  pub labels : List Event → Dict String
  pub base : BaseProvider

-- Health and status: "running" until a registration has succeeded, and then "run".
pub record State : Type 0 where
  pub health : String
  pub status : String

abbrev pub empty_instruction : Instruction
empty_instruction = record { id = ""; additional_roles = [] }

unfoldable pub get_aggregator_version : ApiVersion → String
get_aggregator_version v1 = "v1"
get_aggregator_version v2 = "v3"

unfoldable pub is_major_three : ℤ → Bool
is_major_three (pos n) = eqb n 3
is_major_three (negsuc n) = false

-- The loop over the majors, and the answer behind it.
unfoldable pub version_among : List ℤ → ApiVersion
version_among majors = if any is_major_three majors then v2 else v1

unfoldable pub decode_majors : Fields → Option (List ℤ)
decode_majors fs = elim (get_field decode_int (pos 0) "major" fs) [
  | none ↦ none
  | some major ↦ elim (get_field decode_int (pos 0) "minor" fs) [
    | none ↦ none
    | some minor ↦ get_field (decode_list decode_int) [] "supportedMajors" fs
  ]
]

-- `roleType == properties["role"]`
unfoldable pub has_role : String → Fields → Bool
has_role role_type properties = elim (find "role" properties) [
  | none ↦ false
  | some v ↦ elim v [ Json.str s ↦ role_type == s | _ ↦ false ]
]

unfoldable pub absent_among : List Fields → List String → List String
absent_among received role_types =
    filter_bool (λ role_type. not (any (has_role role_type) received)) role_types

-- `property == nil || property == ""`: a value of another type is neither.
unfoldable pub is_set : Option Json → Bool
is_set none = false
is_set (some v) = elim v [ null ↦ false | Json.str s ↦ not (s == "") | _ ↦ true ]

unfoldable pub text_of : Option Json → String
text_of none = ""
text_of (some v) = convert_any_to_string v

-- The prefix of the users: the property `resourcePrefix`, or else `dbName`.
unfoldable pub prefix_in : Fields → Option String
prefix_in properties =
    if is_set (find "resourcePrefix" properties)
    then some (text_of (find "resourcePrefix" properties))
    else if is_set (find "dbName" properties)
    then some (text_of (find "dbName" properties))
    else none

-- The deferred `recover()`: whether there was neither an error nor a panic.
unfoldable pub recovered : {A : Type 0} → Result A → Option A
recovered (ok a) = some a
recovered (err e) = none
recovered (panicked text) = none

unfoldable pub recover : {A : Type 0} → Exec A → Exec (Option A)
recover m log = (ok (recovered (m log).0), (m log).1)

-- What the deferred function of doRegistrationRequest leaves; `status` is the one that was set. There is
-- no state yet where the migration is not over.
unfoldable pub state_after : State → Option (Option String) → Option State
state_after s (some (some status)) = some (record { health = "OK"; status = status })
state_after s (some none) = none
state_after s none = some (record s { health = "PROBLEM" })

-- wait.PollImmediate over a state that the condition changes: it says whether it is done.
unfoldable pub poll_state : {S : Type 0} → ℕ → (S → Exec (Option (Bool × S))) → S → Exec (Option S)
poll_state zero condition s = do
  r ← condition s
  elim r [ none ↦ pure none | some (done, s') ↦ pure (some s') ]
poll_state (suc more) condition s = do
  r ← condition s
  elim r [
    | none ↦ pure none
    | some (done, s') ↦ if done then pure (some s') else poll_state more condition s'
  ]

module _ (w : World) (c : Codec) (attempts : ℕ) where
  unfoldable pub deliver : Request → Exec Outcome
  deliver request log = (ok (w.respond log request), log ++ sent request ∷ [])

  abbrev get_request : String → Request
  get_request url = record {
    method = Method.get;
    url = url;
    payload = none;
    json_headers = false;
    basic_auth = none;
  }

  unfoldable pub version_in : ApiVersion → List ℤ ⊎ Error → ApiVersion
  version_in fallback (inl majors) = version_among majors
  version_in fallback (inr e) = fallback

  unfoldable pub version_of : ApiVersion → Outcome → Exec ApiVersion
  version_of fallback (failed e) = pure fallback
  version_of fallback (broken code e) = pure (if eqb code 200 then fallback else v1)
  version_of fallback (answered code b) =
      if eqb code 200
      then (do
        majors ← attempt (process_body (struct decode_majors) [] (answered code b))
        pure (version_in fallback majors))
      else pure v1

  -- getApiVersion. The fallback is that of the environment, where it is one of the two.
  unfoldable pub get_api_version : String → ApiVersion → Exec ApiVersion
  get_api_version aggregator_address fallback = do
    outcome ← deliver (get_request (aggregator_address <> "/api-version"))
    version_of fallback outcome

  module _ (rs : Registration) where
    abbrev base_url : String
    base_url =
        rs.aggregator_address
        <> "/api/"
        <> get_aggregator_version rs.base.api_version
        <> "/dbaas/opensearch/physical_databases/"
        <> rs.physical_database_id

    unfoldable pub status_of_health : Outcome → Exec ℕ
    status_of_health (failed e) = raise (wrapped "failed to get aggregator's health" e)
    status_of_health (broken code e) = pure code
    status_of_health (answered code b) = pure code

    unfoldable pub do_health_request : Exec ℕ
    do_health_request = do
      outcome ← deliver (get_request (rs.aggregator_address <> "/health"))
      status_of_health outcome

    -- modifyReqParams
    unfoldable pub details_of : ApiVersion → String → Option (List String × Bool × String)
    details_of v1 status = none
    details_of v2 status = some (supported_role_types, rs.base.protocol == "https", status)

    unfoldable pub registration_request : State → List Event → Request
    registration_request s log = record {
      method = Method.put;
      url = base_url;
      payload = some (
          c.encode_registration (record {
            address = rs.adapter_address;
            credentials = rs.adapter_credentials;
            labels = rs.labels log;
            details = details_of rs.base.api_version s.status;
          }));
      json_headers = true;
      basic_auth = some rs.aggregator_credentials;
    }

    -- `[0]["resourcePrefix"]` for the log message fails where there are no properties.
    unfoldable pub get_absent_role_types : List Fields → Exec (List String)
    get_absent_role_types [] = panic "index out of range"
    get_absent_role_types (p ∷ ps) = pure (absent_among (p ∷ ps) supported_role_types)

    unfoldable pub create_for_prefix :
        String → String → Option String → Exec (Connection × List Resource)
    create_for_prefix id role_type none = raise (
        message_texts "there is no `resourcePrefix` or `dbName` property for additional role"
          (id ∷ []))
    create_for_prefix id role_type (some prefix) = do
      a ← create_user_by_prefix w attempts rs.base prefix "" prefix role_type
      pure (
        get_extended_connection_properties rs.base "" a.username a.password prefix role_type,
        a.resources,
      )

    unfoldable pub create_additional_resources :
        AdditionalRole → String → Exec (Connection × List Resource)
    create_additional_resources role role_type = elim role.connection_properties [
      | [] ↦ panic "index out of range"
      | p ∷ ps ↦ create_for_prefix role.id role_type (prefix_in p)
    ]

    -- The loop over the absent role types of a role, with what it has made so far.
    unfoldable pub serve_types :
        AdditionalRole → List String → List Connection → List Resource → Exec (Success ⊎ Error)
    serve_types role [] connections resources =
        pure (
          inl (record { id = role.id; connection_properties = connections; resources = resources }))
    serve_types role (t ∷ ts) connections resources = do
      made ← attempt (create_additional_resources role t)
      elim made [
        | inl (connection, more) ↦
            serve_types role ts (connections ++ connection ∷ []) (resources ++ more)
        | inr e ↦ pure (inr e)
      ]

    -- The loop over the roles: the first failure ends it.
    unfoldable pub serve_roles : List AdditionalRole → RoleRequest → Exec RoleRequest
    serve_roles [] r = pure r
    serve_roles (role ∷ roles) r = do
      absent ← get_absent_role_types role.connection_properties
      served ← serve_types role absent [] []
      elim served [
        | inl success ↦ serve_roles roles (record r { success = r.success ++ success ∷ [] })
        | inr e ↦ pure (record r { failure = some (role.id, e) })
      ]

    abbrev pub role_request : String → RoleRequest → Request
    role_request id r = record {
      method = Method.post;
      url = base_url <> "/instruction/" <> id <> "/additional-roles";
      payload = some (c.encode_roles r);
      json_headers = true;
      basic_auth = some rs.aggregator_credentials;
    }

    unfoldable pub status_of_migration : Outcome → Exec ℕ
    status_of_migration (failed e) = raise e
    status_of_migration (broken code e) = pure code
    status_of_migration (answered code b) = pure code

    -- performMigrationRequest
    unfoldable pub perform_migration_request : String → RoleRequest → Exec ℕ
    perform_migration_request id r = do
      outcome ← deliver (role_request id r)
      status_of_migration outcome

    abbrev no_roles : RoleRequest
    no_roles = record { success = []; failure = none }

    -- A round of the migration. The roles are those of the instruction: nothing assigns the response
    -- that getAdditionalRoles would read others from.
    unfoldable pub migration_round : Instruction → Exec ℕ
    migration_round i = do
      r ← serve_roles i.additional_roles no_roles
      perform_migration_request i.id r

    -- The loop, for at most that many rounds. There is no status code where it is not over by then: the
    -- code itself has no such bound.
    unfoldable pub migration_loop : ℕ → Instruction → ℕ → Exec (Option ℕ)
    migration_loop zero i code = pure (if eqb code 202 then none else some code)
    migration_loop (suc rounds) i code =
        if eqb code 202
        then (do next ← migration_round i; migration_loop rounds i next)
        else pure (some code)

    unfoldable pub migrated : Option ℕ → Exec (Option String)
    migrated none = pure none
    migrated (some code) =
        if eqb code 500 then raise (message "migration is not performed") else pure (some "run")

    -- performMigration, with the status that is set behind it.
    unfoldable pub perform_migration : ℕ → ℕ → Instruction → Exec (Option String)
    perform_migration rounds code i = do last ← migration_loop rounds i code; migrated last

    -- The response to the registration, from 400 on or none at all.
    unfoldable pub refused : Exec (Option String)
    refused = do
      code ← do_health_request
      if leb 400 code
          then raise (message_status "aggregator is not available and returns status code" code)
          else raise (message "the aggregator is available, but the adapter fails to register")

    unfoldable pub migrate_unless_ok : ℕ → ℕ → Instruction → Exec (Option String)
    migrate_unless_ok rounds code i =
        if eqb code 200 then pure (some "run") else perform_migration rounds code i

    -- The status to set.
    unfoldable pub accepted : ApiVersion → ℕ → State → ℕ → Outcome → Exec (Option String)
    accepted v1 rounds s code outcome = pure (some s.status)
    accepted v2 rounds s code outcome = do
      i ← process_body c.decode_instruction empty_instruction outcome
      migrate_unless_ok rounds code i

    unfoldable pub registered : ℕ → State → Outcome → Exec (Option String)
    registered rounds s (failed e) = refused
    registered rounds s (broken code e) =
        if leb 400 code then refused else accepted rs.base.api_version rounds s code (broken code e)
    registered rounds s (answered code b) =
        if leb 400 code
        then refused
        else accepted rs.base.api_version rounds s code (answered code b)

    unfoldable pub send_registration : State → Exec Outcome
    send_registration s log = deliver (registration_request s log) log

    -- doRegistrationRequest, which `register` calls with the lock.
    unfoldable pub do_registration_request : ℕ → State → Exec (Option State)
    do_registration_request rounds s = do
      id ← generate_uuid w
      status ← recover (do outcome ← send_registration s; registered rounds s outcome)
      pure (state_after s status)

    -- The condition of the poll: it is done after any attempt.
    unfoldable pub attempted_of : Option State → Option (Bool × State)
    attempted_of none = none
    attempted_of (some s) = some (true, s)

    unfoldable pub register_with_retry : ℕ → ℕ → State → Exec (Option State)
    register_with_retry more rounds =
        poll_state more (λ s. do r ← do_registration_request rounds s; pure (attempted_of r))
