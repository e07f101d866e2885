-- ===== src/Adapter/RoleMapping.antt =====
-- opensearch-dbaas-adapter/basic/rolemapping.go: which users and backend roles have a role.
use qubership_opensearch.Prelude.{
  String, Bool, true, false, ◌||◌, ◌==◌, ◌<>◌, eqb, is_empty, Option, none, some, List, [], ◌∷◌,
  ◌++◌, Dict, lookup, if◌then◌else◌,
}
use qubership_opensearch.Json.{
  Json, bool, Fields, object, texts, get_field, decode_text, decode_list, decode_map, decode_any,
  struct,
}
use qubership_opensearch.Http.{
  Method, Outcome, failed, broken, answered, World, message_status, message, wrapped, Exec, pure,
  raise, ◌>>=◌,
}
use qubership_opensearch.Adapter.Transport.{perform, process_body}
use qubership_opensearch.Adapter.Users.{admin_role_type, backend_role}
use qubership_opensearch.Adapter.Resources.{decode_flag, found_of}
use qubership_opensearch.Adapter.Roles.{role_name, ism_role_type, decode_pointer}

pub record RoleMapping : Type 0 where
  pub users : List String
  pub reserved : Bool
  pub backend_roles : List String

abbrev pub empty_mapping : RoleMapping
empty_mapping = record { users = []; reserved = false; backend_roles = [] }

unfoldable pub decode_mapping : Fields → Option RoleMapping
decode_mapping fs = elim (get_field (decode_list decode_text) [] "users" fs) [
  | none ↦ none
  | some us ↦ elim (get_field decode_flag false "reserved" fs) [
    | none ↦ none
    | some flag ↦ elim (get_field (decode_list decode_text) [] "backend_roles" fs) [
      | none ↦ none
      | some roles ↦ some (record { users = us; reserved = flag; backend_roles = roles })
    ]
  ]
]

-- json.Marshal: what is empty or false is left out.
abbrev pub write_mapping : RoleMapping → Json
write_mapping m = object (of_users ++ of_reserved ++ of_roles)
  where
    of_users : Dict Json
    of_users = if is_empty m.users then [] else ("users", texts m.users) ∷ []

    of_reserved : Dict Json
    of_reserved = if m.reserved then ("reserved", bool true) ∷ [] else []

    of_roles : Dict Json
    of_roles =
        if is_empty m.backend_roles then [] else ("backend_roles", texts m.backend_roles) ∷ []

abbrev pub mappings_path : String
mappings_path = "/_plugins/_security/api/rolesmapping"

unfoldable pub get_backend_roles_for_mapping : String → List String
get_backend_roles_for_mapping role_type =
    if role_type == admin_role_type
    then backend_role admin_role_type ∷ backend_role ism_role_type ∷ []
    else backend_role role_type ∷ []

-- The body is read for the message of a refusal only.
unfoldable pub mapping_created : Outcome → Exec (Unit {0})
mapping_created (failed e) = raise (wrapped "failed to create role mapping" e)
mapping_created (broken code e) =
    if eqb code 200 || eqb code 201
    then pure tt
    else raise (wrapped "failed to parse response body" e)
mapping_created (answered code b) = if eqb code 200 || eqb code 201 then pure tt else (do
  refused ← process_body (decode_map decode_any) [] (answered code b)
  raise (message_status "failed to create role mapping for role" code))

unfoldable pub mapping_or_empty : Option RoleMapping → RoleMapping
mapping_or_empty none = empty_mapping
mapping_or_empty (some m) = m

-- roleMapping[roleName], nil where the key is missing
unfoldable pub at_role : String → Dict (Option RoleMapping) → Option RoleMapping
at_role name mappings = elim (lookup name mappings) [ none ↦ none | some m ↦ m ]

module _ (w : World) where
  unfoldable pub create_role_mapping : String → RoleMapping → Exec (Unit {0})
  create_role_mapping name m = do
    outcome ← perform w Method.put (mappings_path <> "/" <> name) (some (write_mapping m)) true
    mapping_created outcome

  unfoldable pub get_role_mapping : String → Exec (Option RoleMapping)
  get_role_mapping name = do
    outcome ← perform w Method.get (mappings_path <> "/" <> name) none false
    found_of (wrapped "failed to receive role mapping")
        (message "during receiving role mapping error occurred") none
        (do
          mappings ← process_body (decode_map (decode_pointer decode_mapping)) [] outcome
          pure (at_role name mappings))
        outcome

  unfoldable pub create_or_update_role_mapping : String → Exec (Unit {0})
  create_or_update_role_mapping role_type = do
    found ← get_role_mapping (role_name role_type)
    create_role_mapping (role_name role_type) (record (mapping_or_empty found) {
      backend_roles = get_backend_roles_for_mapping role_type;
    })

  unfoldable pub get_roles_mapping : Exec (Dict RoleMapping)
  get_roles_mapping = do
    outcome ← perform w Method.get mappings_path none false
    found_of (wrapped "failed to receive roles mapping")
        (message "during receiving roles mapping error occurred") []
        (process_body (decode_map (struct decode_mapping)) [] outcome) outcome
