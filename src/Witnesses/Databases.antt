-- ===== src/Witnesses/Databases.antt =====
-- Runs of the creation of users and databases, and of the adapter's start.
use qubership_opensearch.Prelude.{
  ℕ, ◌⊎◌, inl, ◌≡◌, refl, subst, String, ◌==◌, true, false, none, some, List, [], ◌∷◌,
  if◌then◌else◌,
}
use qubership_opensearch.Json.{object}
use qubership_opensearch.Http.{
  Event, Body, Method, Request, Outcome, failed, answered, World, Error, transport, attempt,
  attempted, pure, raise, ◌>>=◌,
}
use qubership_opensearch.Http.Staged.{Staged}
use qubership_opensearch.Http.Poll.{poll_immediate}
use qubership_opensearch.Adapter.Transport.{perform}
use qubership_opensearch.Adapter.Deletion.{v1, resource}
use qubership_opensearch.Adapter.Resources.{get_user, found_of}
use qubership_opensearch.Adapter.Roles.{supported_role_types}
use qubership_opensearch.Adapter.Accounts.{
  BaseProvider, Account, create_user, create_or_update_user, name_or_new, password_or_new,
  write_user, created, failed_with,
}
use qubership_opensearch.Adapter.Accounts.Written.{
  GeneratesStrong, WrittenLast, create_or_update_user-Written,
}
use qubership_opensearch.Adapter.Startup.{map_each, create_basic_roles}
use qubership_opensearch.Adapter.Startup.Order.{IsEarly, create_basic_roles-Staged}
use qubership_opensearch.Http.Yields.{Yields}
use qubership_opensearch.Json.{Fields}
use qubership_opensearch.Adapter.Deletion.{Resource, delete_resources}
use qubership_opensearch.Adapter.Deletion.Reports.{resources}
use qubership_opensearch.Adapter.Accounts.{get_connection_properties}
use qubership_opensearch.Adapter.Databases.{
  DbCreateRequest, DbCreateResponse, Progress, create_database, choose_prefix, default_prefix,
  create_kinds, create_kind, kinds_of, create_index, build_index_name, sent_of, conclude,
  connections_of,
}
use qubership_opensearch.Adapter.Databases.Dropped.{Has, create-drop}
use qubership_opensearch.Adapter.Metadata.{create_metadata, read_body}
use qubership_opensearch.Adapter.Backup.Renaming.{check_prefix_uniqueness, uniqueness_of}
use qubership_opensearch.Witnesses.Worlds.{world_of, failing}

abbrev body : Body
body = record { text = "{…}"; document = some (object []) }

abbrev provider : BaseProvider
provider = record {
  protocol = "http";
  host = "opensearch";
  port = 9200;
  api_version = v1;
  generate = λ log. inl "s3cret_A1b";
}

-- It has no users, and takes what is written.
abbrev taking : World
taking = world_of (λ r. reply r.method)
  where
    reply : Method → Outcome
    reply Method.get = answered 404 body
    reply _ = answered 201 body

abbrev account : Account
account = record { username = "u"; password = "p"; resources = resource "user" "u" ∷ [] }

strong : GeneratesStrong taking 0 provider
strong log s e = subst (λ (t : String). (t == "") ≡ false) {x = "s3cret_A1b"} (cc e) refl

create_or_update_user-Written_example :
    WrittenLast taking "u" (create_or_update_user taking 0 provider "u" "p" "orders*" "admin" []).1
    × (resource "user" "u" ∷ [] ≡ resource "user" "u" ∷ [])
unfolding create_or_update_user name_or_new password_or_new get_user found_of write_user create_user
    poll_immediate created failed_with perform attempt attempted pure ◌>>=◌
create_or_update_user-Written_example =
    create_or_update_user-Written taking 0 provider "u" "p" "orders*" "admin" []
      (create_or_update_user taking 0 provider "u" "p" "orders*" "admin" []).1 {a = account} strong
      refl

-- It is unavailable at first.
abbrev waking : World
waking = record taking { respond = answer }
  where
    answer : List Event → Request → Outcome
    answer [] r = answered 503 body
    answer (e ∷ es) r = answered 201 body

create_basic_roles-Staged_example :
    Staged IsEarly (map_each failing 0 supported_role_types) (create_basic_roles failing 0 true)
create_basic_roles-Staged_example = create_basic_roles-Staged failing 0 true

abbrev request : DbCreateRequest
request = record {
  metadata = some Fields.end;
  name_prefix = "";
  password = "";
  username = "";
  db_name = "a";
  resource_prefix = false;
  create_only = "index" ∷ [];
  index_settings = none;
}

abbrev prepare : List Event → String → String → ℕ → String ⊎ Error
prepare log namespace microservice length = inl "ns_ms"

abbrev response : DbCreateResponse
response = record {
  name = "dbaas_a";
  connections = inl (get_connection_properties provider "dbaas_a" "" "");
  resources = resource "index" "dbaas_a" ∷ resource "metadataDocument" "dbaas_a" ∷ [];
}

create-drop_example :
    Yields
      (λ ds.
        (x : Resource)
        → Has x response.resources
        → (x.kind ≡ "resourcePrefix") ⊎ Has x (resources ds))
      (delete_resources failing v1 response.resources)
unfolding create_database choose_prefix default_prefix check_prefix_uniqueness uniqueness_of
    create_kinds create_kind kinds_of create_index build_index_name sent_of create_metadata
    read_body conclude perform attempt attempted pure raise ◌>>=◌ connections_of
create-drop_example = create-drop taking 0 provider prepare failing v1 request response [] _ refl

-- It takes no metadata.
abbrev forgetful : World
forgetful = record taking { respond = answer }
  where
    answer : List Event → Request → Outcome
    answer log r =
        if r.url == "/dbaas_opensearch_metadata/_doc/dbaas_a"
        then failed (transport "EOF")
        else taking.respond log r

abbrev made : Progress
made = record {
  index_name = "dbaas_a";
  username = "";
  password = "";
  connections = [];
  resources = resource "index" "dbaas_a" ∷ [];
}
