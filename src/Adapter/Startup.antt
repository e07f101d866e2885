-- ===== src/Adapter/Startup.antt =====
-- What the adapter does before it serves, in opensearch-dbaas-adapter/server/server.go: the basic
-- roles, and the migration of users that have roles of their own. Its `panic(err)` is an error here.
pub mod Order
use qubership_opensearch.Prelude.{
  ℕ, String, Bool, true, false, not, ◌&&◌, ◌||◌, ◌==◌, ◌<>◌, eqb, length, Option, none, some, List,
  [], ◌∷◌, Dict, if◌then◌else◌,
}
use qubership_opensearch.Http.{World, Exec, pure, panic, attempt, raise, ◌>>=◌, ◌>>◌}
use qubership_opensearch.Adapter.Users.{admin_role_type}
use qubership_opensearch.Adapter.Resources.{User, get_user}
use qubership_opensearch.Adapter.Roles.{
  Role, IndexPermission, all_indices, role_name, supported_role_types, define_role_type, get_role,
  create_role_with_ism_permissions, create_role_with_admin_permissions,
  create_role_with_dml_permissions, create_role_with_read_only_permissions,
}
use qubership_opensearch.Adapter.RoleMapping.{
  RoleMapping, get_role_mapping, get_roles_mapping, create_or_update_role_mapping,
}
use qubership_opensearch.Adapter.Accounts.{patch_user}

-- strings.HasSuffix
unfoldable pub ends_with : String → String → Bool
ends_with String.[] t = t == ""
ends_with (String.◌∷◌ c s) t =
    let rest = ends_with s t in if t == String.◌∷◌ c s then true else rest

unfoldable pub relevant_for_migration : String → RoleMapping → Bool
relevant_for_migration role m =
    (ends_with role "_role"
      || ends_with role "_dml"
      || ends_with role "_readonly"
      || ends_with role "_admin"
      || ends_with role "_ism")
    && not m.reserved
    && eqb (length m.users) 1

-- The pattern of a permission that is for one pattern other than all indices.
unfoldable pub pattern_in : List String → Option String
pattern_in [] = none
pattern_in (p ∷ []) = if not (p == all_indices) then some p else none
pattern_in (p ∷ q ∷ ps) = none

-- The pattern of the last such permission.
unfoldable pub pattern_among : List IndexPermission → String → String
pattern_among [] pattern = pattern
pattern_among (p ∷ ps) pattern =
    pattern_among ps (elim (pattern_in p.index_patterns) [ none ↦ pattern | some q ↦ q ])

module _ (w : World) (attempts : ℕ) where
  unfoldable pub update_with_role : String → String → Option Role → Exec (Unit {0})
  update_with_role username role none = pure tt
  update_with_role username role (some r) =
      let pattern = pattern_among r.index_permissions "" in
      if pattern == ""
      then pure tt
      else patch_user w attempts username "" pattern (define_role_type role)

  unfoldable pub update_found_user : String → String → Option User → Exec (Unit {0})
  update_found_user username role none = pure tt
  update_found_user username role (some u) = do
    found ← get_role w role
    update_with_role username role found

  unfoldable pub update_user_configuration : String → String → Exec (Unit {0})
  update_user_configuration username role = do
    user ← get_user w username
    update_found_user username role user

  -- mapping.Users[0]
  unfoldable pub first_user_of : List String → Exec String
  first_user_of [] = panic "index out of range"
  first_user_of (u ∷ us) = pure u

  unfoldable pub migrate_each : Dict RoleMapping → Exec (Unit {0})
  migrate_each [] = pure tt
  migrate_each ((role, m) ∷ mappings) =
      if relevant_for_migration role m
      then (do
        username ← first_user_of m.users
        update_user_configuration username role
        migrate_each mappings)
      else migrate_each mappings

  -- performMigration
  unfoldable pub perform_user_migration : Exec (Unit {0})
  perform_user_migration = do mappings ← get_roles_mapping w; migrate_each mappings

  unfoldable pub migration_for : Option RoleMapping → Exec (Unit {0})
  migration_for none = perform_user_migration
  migration_for (some m) = pure tt

  unfoldable pub map_each : List String → Exec (Unit {0})
  map_each [] = pure tt
  map_each (t ∷ ts) = do create_or_update_role_mapping w t; map_each ts

  unfoldable pub create_basic_roles : Bool → Exec (Unit {0})
  create_basic_roles enhanced_security_plugin_enabled = do
    mapping ← get_role_mapping w (role_name admin_role_type)
    create_role_with_ism_permissions w enhanced_security_plugin_enabled
    create_role_with_admin_permissions w
    create_role_with_dml_permissions w
    create_role_with_read_only_permissions w
    migration_for mapping
    map_each supported_role_types

-- BasicAuthorizer: the handler runs only for the right credentials. `none` is the answer 401.
unfoldable pub basic_authorizer :
    {A : Type 0} → String → String → Option (String × String) → Exec A → Exec (Option A)
basic_authorizer username password none handler = pure none
basic_authorizer username password (some (user, pass)) handler =
    if user == username && pass == password then (do a ← handler; pure (some a)) else pure none
