-- ===== src/Adapter/Users.antt =====
-- The types of opensearch-dbaas-adapter/basic/user.go, patchUsers, and the content of a user.
use qubership_opensearch.Prelude.{
  String, true, not, ◌==◌, ◌<>◌, eqb, is_empty, some, List, [], ◌∷◌, ◌++◌, Dict, if◌then◌else◌,
}
use qubership_opensearch.Json.{Json, object, texts, str, array}
use qubership_opensearch.Http.{
  Method, Outcome, failed, broken, answered, World, message_status, Exec, pure, raise, ◌>>=◌,
}
use qubership_opensearch.Adapter.Transport.{perform}

-- ConnectionProperties of common/common.go, as far as the users' recovery reads it.
pub record ConnectionProperties : Type 0 where
  pub db_name : String
  pub username : String
  pub password : String
  pub resource_prefix : String
  pub role : String

pub record Content : Type 0 where
  pub attributes : Dict String
  pub backend_roles : List String
  pub password : String

pub record Change : Type 0 where
  pub operation : String
  pub path : String
  pub value : Content

abbrev pub admin_role_type : String
admin_role_type = "admin"

-- BackendRolePattern
abbrev pub backend_role : String → String
backend_role role_type = "dbaas_" <> role_type

unfoldable pub get_backend_roles : String → List String
get_backend_roles role_type = backend_role role_type ∷ []

unfoldable pub get_user_content : ConnectionProperties → Content
get_user_content p =
    let role_type = if not (p.role == "") then p.role else admin_role_type in
    let prefix = if p.resource_prefix == "" then p.db_name else p.resource_prefix in
    record {
      attributes = ("resource_prefix", prefix) ∷ [];
      backend_roles = get_backend_roles role_type;
      password = p.password;
    }

-- A field that is empty is left out.
abbrev pub write_content : Content → Json
write_content c = object (attributes_field ++ roles_field ++ password_field)
  where
    write_all : Dict String → Dict Json
    write_all [] = []
    write_all ((k, v) ∷ d) = (k, str v) ∷ write_all d

    attributes_field : Dict Json
    attributes_field =
        if is_empty c.attributes then [] else ("attributes", object (write_all c.attributes)) ∷ []

    roles_field : Dict Json
    roles_field =
        if is_empty c.backend_roles then [] else ("backend_roles", texts c.backend_roles) ∷ []

    password_field : Dict Json
    password_field = if c.password == "" then [] else ("password", str c.password) ∷ []

-- json.Marshal of the changes
abbrev pub write_changes : List Change → Json
write_changes changes = array (write_all changes)
  where
    write_all : List Change → List Json
    write_all [] = []
    write_all (c ∷ cs) =
        object
          (("op", str c.operation) ∷ ("path", str c.path) ∷ ("value", write_content c.value) ∷ [])
        ∷ write_all cs

-- What patchUsers makes of the response. It reads the body only for its error.
unfoldable pub patched_of : Outcome → Exec (Unit {0})
patched_of (failed e) = raise e
patched_of (broken code e) = if eqb code 200 then pure tt else raise e
patched_of (answered code b) =
    if eqb code 200
    then pure tt
    else raise (message_status "creation of users batch is finished with code" code)

abbrev pub users_path : String
users_path = "/_plugins/_security/api/internalusers"

unfoldable pub patch_users : World → List Change → Exec (Unit {0})
patch_users w changes = if is_empty changes then pure tt else (do
  outcome ← perform w Method.patch users_path (some (write_changes changes)) true
  patched_of outcome)
