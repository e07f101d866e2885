-- ===== src/Adapter/Roles.antt =====
-- opensearch-dbaas-adapter/basic/role.go: the roles that the adapter creates in OpenSearch.
-- `strings.ToUpper` of a constant is written out.
use qubership_opensearch.Prelude.{
  ℕ, String, Bool, true, false, not, ◌||◌, ◌<>◌, eqb, contains, is_empty, Option, none, some, List,
  [], ◌∷◌, ◌++◌, Dict, if◌then◌else◌,
}
use qubership_opensearch.Json.{
  Json, Fields, object, array, texts, null, struct, get_field, decode_text, decode_list, decode_map,
}
use qubership_opensearch.Http.{
  Method, Outcome, failed, broken, answered, World, message_texts, message, wrapped, Exec, pure,
  raise, ◌>>=◌,
}
use qubership_opensearch.Adapter.Transport.{perform, process_body}
use qubership_opensearch.Adapter.Resources.{found_of}
use qubership_opensearch.Adapter.Users.{admin_role_type}

pub record IndexPermission : Type 0 where
  pub index_patterns : List String
  pub allowed_actions : List String

pub record Role : Type 0 where
  pub cluster_permissions : List String
  pub index_permissions : List IndexPermission

abbrev pub all_indices : String
all_indices = "*"

abbrev pub attribute_resource_prefix : String
attribute_resource_prefix = "${attr.internal.resource_prefix}*"

abbrev pub dml_role_type : String
dml_role_type = "dml"

abbrev pub read_only_role_type : String
read_only_role_type = "readonly"

abbrev pub ism_role_type : String
ism_role_type = "ism"

-- GetSupportedRoleTypes
abbrev pub supported_role_types : List String
supported_role_types = read_only_role_type ∷ dml_role_type ∷ admin_role_type ∷ ism_role_type ∷ []

-- The first type of the list that the name contains.
unfoldable pub type_among : String → List String → String
type_among role_name [] = admin_role_type
type_among role_name (t ∷ ts) =
    let rest = type_among role_name ts in if contains role_name t then t else rest

unfoldable pub define_role_type : String → String
define_role_type role_name = type_among role_name supported_role_types

-- RoleNamePattern of common/common.go
abbrev pub role_name : String → String
role_name role_type = "dbaas_" <> role_type <> "_role"

-- The two permissions of a role: for the indices of the user's prefix, and for all indices.
unfoldable pub role_of : List String → List String → List String → Role
role_of cluster_permissions index_permissions global_index_permissions = record {
  cluster_permissions = cluster_permissions;
  index_permissions =
      record {
        index_patterns = attribute_resource_prefix ∷ [];
        allowed_actions = index_permissions;
      }
      ∷ (if is_empty global_index_permissions
          then []
          else record {
            index_patterns = all_indices ∷ [];
            allowed_actions = global_index_permissions;
          }
            ∷ []);
}

abbrev write_permissions : List IndexPermission → List Json
write_permissions [] = []
write_permissions (p ∷ ps) =
    object (
      ("index_patterns", texts p.index_patterns)
      ∷ ("allowed_actions", texts p.allowed_actions)
      ∷ [])
    ∷ write_permissions ps

-- json.Marshal: no cluster permissions are left out.
abbrev pub write_role : Role → Json
write_role r =
    object (cluster ++ ("index_permissions", array (write_permissions r.index_permissions)) ∷ [])
  where
    cluster : Dict Json
    cluster =
        if is_empty r.cluster_permissions
        then []
        else ("cluster_permissions", texts r.cluster_permissions) ∷ []

abbrev pub roles_path : String
roles_path = "/_plugins/_security/api/roles"

unfoldable pub created_of : String → ℕ → Exec (Unit {0})
created_of name code =
    if eqb code 200 || eqb code 201
    then pure tt
    else raise (message_texts "role is not created" (name ∷ []))

unfoldable pub creation_of : String → Outcome → Exec (Unit {0})
creation_of name (failed e) = raise (wrapped "error occurred during role creation" e)
creation_of name (broken code e) = created_of name code
creation_of name (answered code b) = created_of name code

abbrev pub ism_permissions : Bool → List String
ism_permissions enhanced =
    if not enhanced
    then "indices:admin/opensearch/ism/managedindex" ∷ "indices:monitor/stats"
      ∷ "indices:admin/rollover" ∷ "indices:admin/delete" ∷ []
    else "indices:admin/opensearch/ism/managedindex" ∷ []

unfoldable pub ism_role : Bool → Role
unfolding role_of
ism_role enhanced = role_of ("cluster:admin/opendistro/ism/*" ∷ []) [] (ism_permissions enhanced)

unfoldable pub admin_role : Role
unfolding role_of
admin_role =
    role_of
      ("cluster_composite_ops" ∷ "CLUSTER_COMPOSITE_OPS" ∷ "cluster:monitor/main"
        ∷ "cluster:monitor/health" ∷ "cluster:monitor/task*" ∷ "cluster:monitor/state"
        ∷ "indices:data/read/scroll/clear" ∷ "cluster_manage_index_templates"
        ∷ "indices:admin/template/*" ∷ "indices:admin/index_template/*" ∷ [])
      ("indices_all" ∷ "INDICES_ALL" ∷ [])
      ("indices:admin/index_template/*" ∷ "indices:admin/aliases/get" ∷ "indices:admin/resize" ∷ [])

unfoldable pub dml_role : Role
unfolding role_of
dml_role =
    role_of
      ("cluster_composite_ops" ∷ "CLUSTER_COMPOSITE_OPS" ∷ "indices:data/read/scroll/clear"
        ∷ "cluster:monitor/task/get" ∷ "cluster:monitor/state" ∷ "cluster:monitor/main" ∷ [])
      ("indices:data/*" ∷ "INDICES:DATA/*" ∷ "indices:admin/mapping/put"
        ∷ "INDICES:ADMIN/MAPPING/PUT" ∷ "indices:admin/exists" ∷ "INDICES:ADMIN/EXISTS"
        ∷ "indices:admin/get" ∷ "INDICES:ADMIN/GET" ∷ [])
      []

unfoldable pub read_only_role : Role
unfolding role_of
read_only_role =
    role_of
      ("cluster_composite_ops_ro" ∷ "CLUSTER_COMPOSITE_OPS_RO" ∷ "indices:data/read/scroll/clear"
        ∷ "cluster:monitor/state" ∷ "cluster:monitor/main" ∷ [])
      ("indices:data/read/*" ∷ "indices:admin/exists" ∷ "indices:admin/get" ∷ "INDICES:DATA/READ/*"
        ∷ "INDICES:ADMIN/EXISTS" ∷ "INDICES:ADMIN/GET" ∷ [])
      []

-- Decoding, as encoding/json does it for Role.
decode_permission : Fields → Option IndexPermission
decode_permission fs = elim (get_field (decode_list decode_text) [] "index_patterns" fs) [
  | none ↦ none
  | some patterns ↦ elim (get_field (decode_list decode_text) [] "allowed_actions" fs) [
    | none ↦ none
    | some actions ↦ some (record { index_patterns = patterns; allowed_actions = actions })
  ]
]

unfoldable pub decode_role : Fields → Option Role
unfolding decode_permission
decode_role fs = elim (get_field (decode_list decode_text) [] "cluster_permissions" fs) [
  | none ↦ none
  | some cluster ↦
      elim (get_field (decode_list (struct decode_permission)) [] "index_permissions" fs) [
        | none ↦ none
        | some permissions ↦
            some (record { cluster_permissions = cluster; index_permissions = permissions })
      ]
]

-- A pointer is nil where the document is `null`.
unfoldable pub decode_pointer {ℓ} : {A : Type ℓ} → (Fields → Option A) → Json → Option (Option A)
decode_pointer decode null = some none
decode_pointer decode v = elim (struct decode v) [ none ↦ none | some a ↦ some (some a) ]

unfoldable pub first_of {ℓ} : {A : Type ℓ} → Dict (Option A) → Option A
first_of [] = none
first_of ((k, v) ∷ d) = v

module _ (w : World) where
  unfoldable pub create_role : Role → String → Exec (Unit {0})
  create_role role role_type = do
    outcome ←
        perform w Method.put (roles_path <> "/" <> role_name role_type) (some (write_role role))
          true
    creation_of (role_name role_type) outcome

  abbrev pub create_role_with_ism_permissions : Bool → Exec (Unit {0})
  create_role_with_ism_permissions enhanced = create_role (ism_role enhanced) ism_role_type

  abbrev pub create_role_with_admin_permissions : Exec (Unit {0})
  create_role_with_admin_permissions = create_role admin_role admin_role_type

  abbrev pub create_role_with_dml_permissions : Exec (Unit {0})
  create_role_with_dml_permissions = create_role dml_role dml_role_type

  abbrev pub create_role_with_read_only_permissions : Exec (Unit {0})
  create_role_with_read_only_permissions = create_role read_only_role read_only_role_type

  unfoldable pub get_role : String → Exec (Option Role)
  get_role name = do
    outcome ← perform w Method.get (roles_path <> "/" <> name) none false
    found_of (wrapped "failed to receive role") (message "during receiving role error occurred")
        none
        (do
          roles ← process_body (decode_map (decode_pointer decode_role)) [] outcome
          pure (first_of roles))
        outcome
