-- ===== src/Adapter/Databases.antt =====
-- createDatabase and its handler in opensearch-dbaas-adapter/basic/basic.go. CheckPrefixUniqueness of
-- common/common.go is the same as checkPrefixUniqueness of the backup. core.PrepareDatabaseName is a
-- library's, and a function of the events here.
pub mod Hidden
pub mod Dropped
use qubership_opensearch.Prelude.{
  ℕ, ◌⊎◌, inl, inr, String, Bool, true, false, not, ◌||◌, ◌==◌, ◌<>◌, starts_with, contains,
  is_empty, Option, none, some, List, [], ◌∷◌, ◌++◌, if◌then◌else◌,
}
use qubership_opensearch.Json.{Json, null, bool, num, str, arr, obj, Fields, find}
use qubership_opensearch.Http.{
  Event, Method, Outcome, failed, broken, answered, World, Error, message, Exec, pure, raise,
  ensure, new_uuid, attempt, ◌>>=◌, ◌>>◌,
}
use qubership_opensearch.Adapter.Transport.{perform}
use qubership_opensearch.Adapter.Users.{admin_role_type}
use qubership_opensearch.Adapter.Resources.{delete_database}
use qubership_opensearch.Adapter.Roles.{supported_role_types}
use qubership_opensearch.Adapter.Deletion.{Resource, resource, ApiVersion, v1, v2}
use qubership_opensearch.Adapter.Backup.Renaming.{check_prefix_uniqueness}
use qubership_opensearch.Adapter.Metadata.{create_metadata}
use qubership_opensearch.Adapter.Accounts.{
  BaseProvider, Connection, get_connection_properties, get_extended_connection_properties, Account,
  create_or_update_user, create_user_by_prefix, answer_of,
}

-- DbCreateRequest with its settings.
pub record DbCreateRequest : Type 0 where
  pub metadata : Option Fields
  pub name_prefix : String
  pub password : String
  pub username : String
  pub db_name : String
  pub resource_prefix : Bool
  pub create_only : List String
  pub index_settings : Option Json

-- DbCreateResponse, with one connection, and DbCreateResponseMultiUser.
pub record DbCreateResponse : Type 0 where
  pub name : String
  pub connections : Connection ⊎ List Connection
  pub resources : List Resource

-- What the loop over the kinds has made so far.
pub record Progress : Type 0 where
  pub index_name : String
  pub username : String
  pub password : String
  pub connections : List Connection
  pub resources : List Resource

-- ConvertAnyToString of common/common.go
unfoldable pub convert_any_to_string : Json → String
convert_any_to_string (str s) = s
convert_any_to_string _ = ""

unfoldable pub text_at : String → Fields → String
text_at key fs = elim (find key fs) [ none ↦ "" | some v ↦ convert_any_to_string v ]

unfoldable pub namespace_in : Option Json → String
namespace_in (some (obj classifier)) = text_at "namespace" classifier
namespace_in _ = ""

unfoldable pub namespace_of : Option Fields → String
namespace_of none = ""
namespace_of (some metadata) = namespace_in (find "classifier" metadata)

unfoldable pub microservice_of : Option Fields → String
microservice_of none = ""
microservice_of (some metadata) = text_at "microserviceName" metadata

unfoldable pub is_forbidden : String → Bool
is_forbidden prefix = starts_with prefix "." || contains prefix "*"

unfoldable pub check_forbidden_symbol_prefix : String → Exec (Unit {0})
check_forbidden_symbol_prefix prefix =
    ensure (not (is_forbidden prefix)) (message "prefix contains forbidden symbols")

abbrev kinds_for : ApiVersion → List String
kinds_for v1 = "user" ∷ "index" ∷ []
kinds_for v2 = "user" ∷ []

unfoldable pub kinds_of : ApiVersion → List String → List String
kinds_of version kinds = if is_empty kinds then kinds_for version else kinds

unfoldable pub sent_of : String → Outcome → Exec String
sent_of name (failed e) = raise e
sent_of name (broken code e) = pure name
sent_of name (answered code b) = pure name

unfoldable pub prepared : String ⊎ Error → Exec String
prepared (inl prefix) = do check_forbidden_symbol_prefix prefix; pure prefix
prepared (inr e) = raise e

module _ (w : World) where
  unfoldable pub build_index_name : String → String → Exec String
  build_index_name db_name prefix =
      if db_name == ""
      then (do id ← new_uuid w; pure (prefix <> "_" <> id))
      else pure (prefix <> "_" <> db_name)

  -- No status code is looked at.
  unfoldable pub create_index : DbCreateRequest → String → Exec String
  create_index r prefix = do
    name ← build_index_name r.db_name prefix
    outcome ← perform w Method.put ("/" <> name) r.index_settings true
    sent_of name outcome

  module _ (attempts : ℕ) (prepare : List Event → String → String → ℕ → String ⊎ Error)
      (bp : BaseProvider) where
    unfoldable pub generate_prefix : DbCreateRequest → Exec String
    generate_prefix r log =
        if namespace_of r.metadata == "" || microservice_of r.metadata == ""
        then new_uuid w log
        else prepared (prepare log (namespace_of r.metadata) (microservice_of r.metadata) 64) log

    unfoldable pub default_prefix : ApiVersion → String → Exec String
    default_prefix v2 name = raise (message "'resourcePrefix' must be set to 'true' for v2 version")
    default_prefix v1 name = pure (if name == "" then "dbaas" else name)

    unfoldable pub choose_prefix : DbCreateRequest → Exec String
    choose_prefix r =
        if r.resource_prefix
        then (do
          check_forbidden_symbol_prefix r.name_prefix
          if r.name_prefix == "" then generate_prefix r else pure r.name_prefix)
        else default_prefix bp.api_version r.name_prefix

    unfoldable pub create_role_users : String → String → List String → Progress → Exec Progress
    create_role_users prefix db_name [] p = pure p
    create_role_users prefix db_name (role_type ∷ role_types) p = do
      a ← create_user_by_prefix w attempts bp prefix "" db_name role_type
      create_role_users prefix db_name role_types (record p {
        connections =
            p.connections
            ++ get_extended_connection_properties bp p.index_name a.username a.password prefix
                role_type
              ∷ [];
        resources = p.resources ++ a.resources;
      })

    unfoldable pub create_users :
        ApiVersion → DbCreateRequest → String → String → Progress → Exec Progress
    create_users v1 r prefix db_name p = do
      a ←
          create_or_update_user w attempts bp (if r.resource_prefix then prefix else r.username)
            r.password db_name admin_role_type
      pure (record p {
        username = a.username;
        password = a.password;
        resources = p.resources ++ a.resources;
      })
    create_users v2 r prefix db_name p =
        create_role_users prefix db_name supported_role_types
          (record p { username = if r.resource_prefix then prefix else r.username })

    -- The pattern of the indices that the user may use.
    unfoldable pub pattern_for : DbCreateRequest → String → Exec String
    pattern_for r prefix =
        if r.resource_prefix then pure (prefix <> "*") else build_index_name r.db_name prefix

    unfoldable pub create_kind : DbCreateRequest → String → String → Progress → Exec Progress
    create_kind r prefix kind p =
        if kind == "index"
        then (do
          name ← create_index r prefix
          pure (record p {
            index_name = name;
            resources = p.resources ++ resource "index" name ∷ [];
          }))
        else if kind == "user"
        then (do db_name ← pattern_for r prefix; create_users bp.api_version r prefix db_name p)
        else pure p

    unfoldable pub create_kinds : DbCreateRequest → String → List String → Progress → Exec Progress
    create_kinds r prefix [] p = pure p
    create_kinds r prefix (kind ∷ kinds) p = do
      p' ← create_kind r prefix kind p
      create_kinds r prefix kinds p'

    abbrev metadata_id : String → Progress → String
    metadata_id prefix p = if p.index_name == "" then prefix else p.index_name

    unfoldable pub connections_of :
        ApiVersion → DbCreateRequest → String → Progress → Connection ⊎ List Connection
    connections_of v1 r prefix p =
        inl (record (get_connection_properties bp p.index_name p.username p.password) {
          resource_prefix = if r.resource_prefix then prefix else "";
        })
    connections_of v2 r prefix p = inr p.connections

    -- The end of createDatabase. Where the metadata cannot be written the index is deleted, and the error
    -- is overwritten by that of the deletion.
    unfoldable pub conclude :
        DbCreateRequest → String → Progress → (Unit {0}) ⊎ Error → Exec (Option DbCreateResponse)
    conclude r prefix p (inl done) = pure (
        some (record {
          name = p.index_name;
          connections = connections_of bp.api_version r prefix p;
          resources = p.resources ++ resource "metadataDocument" (metadata_id prefix p) ∷ [];
        }))
    conclude r prefix p (inr e) =
        if p.index_name == "" then raise e else (do delete_database w p.index_name; pure none)

    abbrev start : DbCreateRequest → String → Progress
    start r prefix = record {
      index_name = "";
      username = "";
      password = "";
      connections = [];
      resources = if r.resource_prefix then resource "resourcePrefix" prefix ∷ [] else [];
    }

    unfoldable pub create_database : DbCreateRequest → Exec (Option DbCreateResponse)
    create_database r = do
      prefix ← choose_prefix r
      check_prefix_uniqueness w prefix
      p ← create_kinds r prefix (kinds_of bp.api_version r.create_only) (start r prefix)
      done ← attempt (create_metadata w (metadata_id prefix p) r.metadata)
      conclude r prefix p done

    -- CreateDatabaseHandler for a request that decodes. A response that is nil is written as `null`.
    unfoldable pub create_database_handler :
        DbCreateRequest → Exec (ℕ × (Option DbCreateResponse ⊎ Error))
    create_database_handler r = do result ← attempt (create_database r); pure (answer_of result)
