-- ===== src/Adapter/Startup/Order.antt =====
-- The mapping of the roles is the last stage of the start, by which the migration is tracked.
use qubership_opensearch.Prelude.{
  ℕ, ◌⊎◌, inl, inr, ◌≡◌, refl, String, Bool, ◌<>◌, Option, none, some, List, [], ◌∷◌, Dict,
}
use qubership_opensearch.Http.{
  Method, Request, Event, sent, World, Outcome, failed, broken, answered,
}
use qubership_opensearch.Http.Trace.{Adds, Adds-pure, Adds-raise, Adds-panic, Adds-if, Adds-bind}
use qubership_opensearch.Http.Staged.{Staged, Staged-last, Staged-bind}
use qubership_opensearch.Http.Poll.{Adds-poll_immediate}
use qubership_opensearch.Adapter.Trace.{Adds-perform, Adds-process_body, Adds-found_of}
use qubership_opensearch.Adapter.Users.{admin_role_type, users_path}
use qubership_opensearch.Adapter.Resources.{User, get_user}
use qubership_opensearch.Adapter.Roles.{
  Role, roles_path, role_name, supported_role_types, get_role, created_of, creation_of, create_role,
}
use qubership_opensearch.Adapter.RoleMapping.{RoleMapping, get_role_mapping, get_roles_mapping}
use qubership_opensearch.Adapter.Accounts.{patched, patch_user}
use qubership_opensearch.Adapter.Startup.{
  update_with_role, update_found_user, update_user_configuration, first_user_of, migrate_each,
  perform_user_migration, migration_for, map_each, create_basic_roles, relevant_for_migration,
}

-- A read, the creation of a role, or the update of a user.
abbrev pub IsEarlyRequest : Request → Type 0
IsEarlyRequest r =
    (r.method ≡ Method.get)
    ⊎ ((role_type : String) × (r.method ≡ Method.put)
        × (r.url ≡ roles_path <> "/" <> role_name role_type))
    ⊎ ((username : String) × (r.method ≡ Method.patch) × (r.url ≡ users_path <> "/" <> username))

abbrev pub IsEarly : Event → Type 0
IsEarly (sent r) = IsEarlyRequest r
IsEarly _ = Unit

created_of-Adds : (name : String) (code : ℕ) → Adds IsEarly (created_of name code)
unfolding created_of
created_of-Adds name code = Adds-if _ _ _ (Adds-pure _) (Adds-raise _)

creation_of-Adds : (name : String) (outcome : Outcome) → Adds IsEarly (creation_of name outcome)
unfolding creation_of
creation_of-Adds name (failed e) = Adds-raise _
creation_of-Adds name (broken code e) = created_of-Adds name code
creation_of-Adds name (answered code b) = created_of-Adds name code

patched-Adds : (outcome : Outcome) → Adds IsEarly (patched outcome)
unfolding patched
patched-Adds (failed e) = Adds-pure _
patched-Adds (broken code e) = Adds-pure _
patched-Adds (answered code b) = Adds-pure _

module _ (w : World) where
  create_role-Adds :
      (role : Role) (role_type : String) → Adds IsEarly (create_role w role role_type)
  unfolding create_role
  create_role-Adds role role_type =
      Adds-bind _ _ (Adds-perform w _ _ _ _ (inr (inl (role_type, refl, refl))))
        (creation_of-Adds (role_name role_type))

  get_user-Adds : (name : String) → Adds IsEarly (get_user w name)
  unfolding get_user
  get_user-Adds name = Adds-bind _ _ (Adds-perform w _ _ _ _ (inl refl)) λ outcome.
      Adds-found_of _ _ _ _ outcome (Adds-bind _ _ (Adds-process_body _ _ outcome) λ _. Adds-pure _)

  get_role-Adds : (name : String) → Adds IsEarly (get_role w name)
  unfolding get_role
  get_role-Adds name = Adds-bind _ _ (Adds-perform w _ _ _ _ (inl refl)) λ outcome.
      Adds-found_of _ _ _ _ outcome (Adds-bind _ _ (Adds-process_body _ _ outcome) λ _. Adds-pure _)

  get_role_mapping-Adds : (name : String) → Adds IsEarly (get_role_mapping w name)
  unfolding get_role_mapping
  get_role_mapping-Adds name = Adds-bind _ _ (Adds-perform w _ _ _ _ (inl refl)) λ outcome.
      Adds-found_of _ _ _ _ outcome (Adds-bind _ _ (Adds-process_body _ _ outcome) λ _. Adds-pure _)

  get_roles_mapping-Adds : Adds IsEarly (get_roles_mapping w)
  unfolding get_roles_mapping
  get_roles_mapping-Adds =
      Adds-bind _ _ (Adds-perform w _ _ _ _ (inl refl))
        λ outcome. Adds-found_of _ _ _ _ outcome (Adds-process_body _ _ outcome)

  module _ (attempts : ℕ) where
    patch_user-Adds :
        (username password prefix role_type : String)
        → Adds IsEarly (patch_user w attempts username password prefix role_type)
    unfolding patch_user
    patch_user-Adds username password prefix role_type = Adds-if _ _ _ (Adds-pure _) (
        Adds-poll_immediate attempts _ _ λ payload.
          Adds-bind _ _ (Adds-perform w _ _ _ _ (inr (inr (username, refl, refl)))) patched-Adds)

    update_with_role-Adds :
        (username role : String) (found : Option Role)
        → Adds IsEarly (update_with_role w attempts username role found)
    unfolding update_with_role
    update_with_role-Adds username role none = Adds-pure _
    update_with_role-Adds username role (some r) =
        Adds-if _ _ _ (Adds-pure _) (patch_user-Adds username "" _ _)

    update_found_user-Adds :
        (username role : String) (user : Option User)
        → Adds IsEarly (update_found_user w attempts username role user)
    unfolding update_found_user
    update_found_user-Adds username role none = Adds-pure _
    update_found_user-Adds username role (some u) =
        Adds-bind _ _ (get_role-Adds role) (update_with_role-Adds username role)

    first_user_of-Adds : (users : List String) → Adds IsEarly (first_user_of w attempts users)
    unfolding first_user_of
    first_user_of-Adds [] = Adds-panic _
    first_user_of-Adds (u ∷ us) = Adds-pure _

    migrate_each-Adds :
        (mappings : Dict RoleMapping) → Adds IsEarly (migrate_each w attempts mappings)
    unfolding migrate_each update_user_configuration
    migrate_each-Adds [] = Adds-pure _
    migrate_each-Adds ((role, m) ∷ mappings) =
        Adds-if (relevant_for_migration role m) _ _
          (Adds-bind _ _ (first_user_of-Adds m.users) λ username.
            Adds-bind _ _
              (Adds-bind _ _ (get_user-Adds username) (update_found_user-Adds username role))
              λ _. migrate_each-Adds mappings)
          (migrate_each-Adds mappings)

    migration_for-Adds :
        (mapping : Option RoleMapping) → Adds IsEarly (migration_for w attempts mapping)
    unfolding migration_for perform_user_migration
    migration_for-Adds none = Adds-bind _ _ get_roles_mapping-Adds migrate_each-Adds
    migration_for-Adds (some m) = Adds-pure _

    -- A start sends only reads, creations of roles and updates of users, and then it has failed, or goes
    -- on with the mapping of the roles: no mapping is written by a start that fails before.
    pub create_basic_roles-Staged :
        (enhanced : Bool)
        → Staged IsEarly
            (map_each w attempts supported_role_types)
            (create_basic_roles w attempts enhanced)
    unfolding create_basic_roles
    create_basic_roles-Staged enhanced =
        Staged-bind _ _ _ (get_role_mapping-Adds (role_name admin_role_type)) λ mapping.
          Staged-bind _ _ _ (create_role-Adds _ _) λ _.
            Staged-bind _ _ _ (create_role-Adds _ _) λ _.
              Staged-bind _ _ _ (create_role-Adds _ _) λ _.
                Staged-bind _ _ _ (create_role-Adds _ _)
                  λ _. Staged-bind _ _ _ (migration_for-Adds mapping) λ _. Staged-last _
