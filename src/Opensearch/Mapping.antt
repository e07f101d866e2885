-- ===== src/Opensearch/Mapping.antt =====
-- The mappings of roles in controllers/opensearch_reconciler.go, and their merge with those of a secret.
pub mod Merge
use qubership_opensearch.Prelude.{
  is_some, ℕ, ◌⊎◌, inl, inr, String, Bool, true, false, not, ◌&&◌, ◌||◌, ◌==◌, ◌<>◌, eqb, any,
  filter_bool, is_empty, Option, none, some, List, [], ◌∷◌, ◌++◌, Dict, lookup, if◌then◌else◌,
}
use qubership_opensearch.Json.{
  Json, null, bool, str, Fields, get_field, text_field, decode_text, decode_list, decode_map,
  struct, object, texts, array,
}
use qubership_opensearch.Http.{
  Method, World, Error, Body, message_status, RestClient, Reply, send_request, unmarshal_to, Exec,
  pure, raise, require_ok, ◌>>=◌, ◌>>◌,
}
use qubership_opensearch.Opensearch.{Kube}
use qubership_opensearch.Opensearch.Secrets.{find_secret}

-- OpenSearchRoleMapping, where a slice may be nil.
pub record RoleMapping : Type 0 where
  pub role_name : String
  pub description : String
  pub backend_roles : Option (List String)
  pub and_backend_roles : Option (List String)
  pub hosts : Option (List String)
  pub users : Option (List String)
  pub reserved : Bool
  pub hidden : Bool

abbrev pub no_mapping : RoleMapping
no_mapping = record {
  role_name = "";
  description = "";
  backend_roles = none;
  and_backend_roles = none;
  hosts = none;
  users = none;
  reserved = false;
  hidden = false;
}

infixl 5 ◌>>>◌
abbrev ◌>>>◌ : {A B : Type 0} → Option A → (A → Option B) → Option B
none >>> f = none
some a >>> f = f a

unfoldable pub decode_slice : Json → Option (Option (List String))
decode_slice null = some none
decode_slice v = decode_list decode_text v >>> λ ss. some (some ss)

unfoldable pub decode_bool : Json → Option Bool
decode_bool null = some false
decode_bool (bool b) = some b
decode_bool _ = none

unfoldable pub decode_role_mapping : Fields → Option RoleMapping
decode_role_mapping fs = text_field "role_name" fs >>> λ name.
    text_field "description" fs >>> λ description.
    get_field decode_slice none "backend_roles" fs >>> λ roles.
    get_field decode_slice none "and_backend_roles" fs >>> λ and_roles.
    get_field decode_slice none "hosts" fs >>> λ hosts.
    get_field decode_slice none "users" fs >>> λ users.
    get_field decode_bool false "reserved" fs >>> λ reserved.
    get_field decode_bool false "hidden" fs >>> λ hidden. some (record {
      role_name = name;
      description = description;
      backend_roles = roles;
      and_backend_roles = and_roles;
      hosts = hosts;
      users = users;
      reserved = reserved;
      hidden = hidden;
    })

abbrev write_slice : Option (List String) → Json
write_slice none = null
write_slice (some ss) = texts ss

abbrev flag : String → Bool → Dict Json
flag key b = if b then (key, bool true) ∷ [] else []

unfoldable pub write_role_mapping : RoleMapping → Json
write_role_mapping m = object (
    (if m.role_name == "" then [] else ("role_name", str m.role_name) ∷ [])
    ++ ("description", str m.description)
      ∷ ("backend_roles", write_slice m.backend_roles)
      ∷ ("and_backend_roles", write_slice m.and_backend_roles)
      ∷ ("hosts", write_slice m.hosts)
      ∷ ("users", write_slice m.users)
      ∷ flag "reserved" m.reserved
    ++ flag "hidden" m.hidden)

-- slices.Contains
unfoldable pub has : List String → String → Bool
has ss s = any (λ t. t == s) ss

-- The loop over the new list, which appends what the result does not have.
unfoldable pub append_absent : List String → List String → List String
append_absent result [] = result
append_absent result (role ∷ roles) =
    if has result role
    then append_absent result roles
    else append_absent (result ++ role ∷ []) roles

unfoldable pub merge_backend_roles_lists : List String → List String → List String → List String
merge_backend_roles_lists old new found =
    let exclude = filter_bool (λ role. not (has new role)) old in
    append_absent (filter_bool (λ role. not (has exclude role)) found) new

-- An empty slice that was never appended to is nil.
abbrev slice : List String → Option (List String)
slice ss = if is_empty ss then none else some ss

abbrev pub elements : Option (List String) → List String
elements none = []
elements (some ss) = ss

abbrev pub mapping_path : String → String
mapping_path role = "_plugins/_security/api/rolesmapping/" <> role

abbrev new_mapping : RoleMapping
new_mapping = record no_mapping { hosts = some []; users = some []; and_backend_roles = some [] }

unfoldable pub merged : List String → List String → RoleMapping → RoleMapping
merged old new m = record m {
  reserved = false;
  hidden = false;
  backend_roles = slice (merge_backend_roles_lists old new (elements m.backend_roles));
}

unfoldable pub find_roles : String → List RoleMapping → List String
find_roles name [] = []
find_roles name (m ∷ ms) =
    let rest = find_roles name ms in if m.role_name == name then elements m.backend_roles else rest

module _ (w : World) (k : Kube) (rc : RestClient) where
  unfoldable pub found_mapping : String → Reply → Exec RoleMapping
  found_mapping role reply =
      if eqb reply.status_code 200
      then (do
        result ← unmarshal_to (decode_map (struct decode_role_mapping)) reply.body
        pure (elim (lookup role result) [ none ↦ no_mapping | some m ↦ m ]))
      else pure new_mapping

  unfoldable pub update_role_mapping_backend_roles :
      String → List String → List String → Exec (Unit {0})
  update_role_mapping_backend_roles role old new = do
    reply ← send_request w rc Method.get (mapping_path role) none
    require_ok reply.error
    if not (eqb reply.status_code 200) && not (eqb reply.status_code 404)
        then raise (message_status "can not get rolemapping for role" reply.status_code)
        else (do
          m ← found_mapping role reply
          answer ←
              send_request w rc Method.put (mapping_path role)
                (some (write_role_mapping (merged old new m)))
          require_ok answer.error
          if eqb answer.status_code 200 || eqb answer.status_code 201
              then pure tt
              else raise (
                  message_status "can not update or create rolemapping for role"
                    answer.status_code))

  unfoldable pub update_each : List RoleMapping → List RoleMapping → Exec (Unit {0})
  update_each old [] = pure tt
  update_each old (m ∷ ms) = do
    update_role_mapping_backend_roles m.role_name (find_roles m.role_name old)
        (elements m.backend_roles)
    update_each old ms

  -- The body of a missing key is empty, which is no JSON.
  abbrev body_at : String → Dict Body → Body
  body_at key content = elim (lookup key content) [
    | none ↦ record { text = ""; document = none }
    | some b ↦ b
  ]

  unfoldable pub decode_mappings : Json → Option (Option (List RoleMapping))
  decode_mappings null = some none
  decode_mappings v = decode_list (struct decode_role_mapping) v >>> λ ms. some (some ms)

  unfoldable pub get_role_mapping_list_from_secret : String → Exec (Option (List RoleMapping))
  get_role_mapping_list_from_secret name = do
    content ← find_secret w k name
    unmarshal_to decode_mappings (body_at "rolemappings" content)

  abbrev mappings_of : Option (List RoleMapping) → List RoleMapping
  mappings_of none = []
  mappings_of (some ms) = ms

  unfoldable pub update_if_any : String → Option (List RoleMapping) → Exec (Unit {0})
  update_if_any name none = pure tt
  update_if_any name (some new) = do
    old ← get_role_mapping_list_from_secret (name <> "-ldap-rolemappings-old")
    update_each (mappings_of old) new

  unfoldable pub update_ldap_rolesmapping : String → Exec (Unit {0})
  update_ldap_rolesmapping name = do
    new ← get_role_mapping_list_from_secret (name <> "-ldap-rolemappings")
    update_if_any name new

  -- No status code is looked at, and the answer is read at "all_access".
  unfoldable pub get_role_mapping : String → Exec RoleMapping
  get_role_mapping role = do
    reply ← send_request w rc Method.get (mapping_path role) none
    require_ok reply.error
    unmarshal_to (struct (get_field (struct decode_role_mapping) no_mapping "all_access"))
        reply.body

  abbrev operation : String → String → Json → Json
  operation op path value = object (("op", str op) ∷ ("path", str path) ∷ ("value", value) ∷ [])

  -- The error of the second request is another variable than the one that is returned.
  unfoldable pub update_roles : String → String → Exec (Unit {0})
  update_roles user role = do
    reply ← send_request w rc Method.patch "_plugins/_security/api/rolesmapping" (
        some (
          array (
            operation "add" ("/" <> role) (object (("backend_roles", texts ("admin" ∷ [])) ∷ []))
            ∷ [])))
    require_ok reply.error
    if eqb reply.status_code 200
        then (do
          answer ←
              send_request w rc Method.patch ("_plugins/_security/api/internalusers/" <> user)
                (some (array (operation "replace" "/opendistro_security_roles" (array []) ∷ [])))
          if is_some answer.error || eqb answer.status_code 200
              then pure tt
              else raise
                  (message_status "opendistro security roles update went wrong" answer.status_code))
        else raise (message_status "mapping roles update went wrong" reply.status_code)
