-- ===== src/Opensearch/Security.antt =====
-- Configure in controllers/opensearch_reconciler.go: the credentials, the audit, the security configuration
-- and the mappings of roles, and then the repository of the snapshots and the compatibility mode.
use Prim.Native.Char.{code}
use qubership_opensearch.Prelude.{
  ℕ, ◌⊎◌, inl, inr, String, Bool, false, not, ◌&&◌, ◌||◌, ◌==◌, ◌<>◌, eqb, contains, any, is_some,
  Option, none, some, List, [], ◌∷◌, lookup, if◌then◌else◌,
}
use qubership_opensearch.Json.{
  Json, null, bool, obj, Fields, end, field, find, get_field, struct, texts, object,
}
use qubership_opensearch.Http.{
  Method, World, Error, transport, unmarshal, message, message_status, message_texts, wrapped, Body,
  RestClient, Credentials, send_basic_request, send_request, unmarshal_to, Exec, pure, raise, panic,
  attempt, require_ok, call, note, stored_hash, run_command, ◌>>=◌, ◌>>◌,
}
use qubership_opensearch.Opensearch.{Kube}
use qubership_opensearch.Opensearch.Secrets.{
  find_secret, parse_secret_credentials, calculate_secret_data_hash,
}
use qubership_opensearch.Opensearch.Mapping.{
  RoleMapping, decode_bool, get_role_mapping, update_roles, update_ldap_rolesmapping,
}
use qubership_opensearch.Opensearch.Credentials.{accept, with_credentials, update_credentials}
use qubership_opensearch.Opensearch.Snapshots.{
  Snapshots, create_snapshots_repository, update_compatibility_mode,
}

-- What the reconciler reads of the resource, and the hashes that it has stored.
pub record Spec : Type 0 where
  pub name : String
  pub disabled_rest_categories : Option (List String)
  pub security_configuration_name : String
  pub snapshots : Option Snapshots
  pub compatibility_mode_enabled : Bool
  pub config_hash : String
  pub role_mappings_hash : String

-- strings.Contains(err.Error(), "is read-only")
unfoldable pub is_read_only : Error → Bool
is_read_only (transport text) = contains text "is read-only"
is_read_only unmarshal = false
is_read_only (message text) = contains text "is read-only"
is_read_only (message_status text code) = contains text "is read-only"
is_read_only (message_texts text args) =
    contains text "is read-only" || any (λ t. contains t "is read-only") args
is_read_only (wrapped text e) = contains text "is read-only" || is_read_only e

-- strings.TrimSpace, of the white space of ASCII
unfoldable pub is_space : ℕ → Bool
is_space c = eqb c 32 || eqb c 9 || eqb c 10 || eqb c 11 || eqb c 12 || eqb c 13

unfoldable pub trim_right : String → String
trim_right String.[] = ""
trim_right (String.◌∷◌ c s) =
    let rest = trim_right s in if rest == "" && is_space (code c) then "" else String.◌∷◌ c rest

unfoldable pub trim_left : String → String
trim_left String.[] = ""
trim_left (String.◌∷◌ c s) =
    let rest = trim_left s in if is_space (code c) then rest else String.◌∷◌ c s

-- The three fields of the audit configuration. A map may be nil.
pub record AuditConfig : Type 0 where
  pub enabled : Bool
  pub audit : Option Fields
  pub compliance : Option Fields

unfoldable pub decode_object : Json → Option (Option Fields)
decode_object null = some none
decode_object (obj fs) = some (some fs)
decode_object _ = none

unfoldable pub decode_audit : Fields → Option AuditConfig
decode_audit fs = elim (get_field decode_bool false "enabled" fs) [
  | none ↦ none
  | some enabled ↦ elim (get_field decode_object none "audit" fs) [
    | none ↦ none
    | some audit ↦ elim (get_field decode_object none "compliance" fs) [
      | none ↦ none
      | some compliance ↦
          some (record { enabled = enabled; audit = audit; compliance = compliance })
    ]
  ]
]

abbrev pub no_audit : AuditConfig
no_audit = record { enabled = false; audit = none; compliance = none }

abbrev write_object : Option Fields → Json
write_object none = null
write_object (some fs) = obj fs

-- m[key] = v
unfoldable pub without : String → Fields → Fields
without key end = end
without key (field j x fs) = let rest = without key fs in if j == key then rest else field j x rest

module _ (w : World) (k : Kube) (attempts : ℕ) (spec : Spec) where
  unfoldable pub get_cluster_manager_node : RestClient → Exec String
  get_cluster_manager_node rc = do
    reply ← send_basic_request w rc Method.get "_cat/cluster_manager?h=node" none false
    require_ok reply.error
    if eqb reply.status_code 200
        then pure (trim_left (trim_right reply.body.text))
        else raise (message_status "unable to receive cluster_manager node" reply.status_code)

  -- The assignment to a nil map panics.
  unfoldable pub with_categories : List String → AuditConfig → Exec Json
  with_categories categories a = elim a.audit [
    | none ↦ panic "assignment to entry in nil map"
    | some fs ↦ pure (
        object (
          ("enabled", bool a.enabled)
          ∷ (
            "audit",
            obj (
                field "disabled_rest_categories" (texts categories)
                  (without "disabled_rest_categories" fs)),
          )
          ∷ ("compliance", write_object a.compliance)
          ∷ []))
  ]

  unfoldable pub update_audit_configuration : RestClient → Option (List String) → Exec (Unit {0})
  update_audit_configuration rc none = pure tt
  update_audit_configuration rc (some categories) = do
    reply ← send_request w rc Method.get "_plugins/_security/api/audit" none
    require_ok reply.error
    audit ← unmarshal_to (struct (get_field (struct decode_audit) no_audit "config")) reply.body
    body ← with_categories categories audit
    answer ← send_request w rc Method.put "_plugins/_security/api/audit/config" (some body)
    accept answer (eqb answer.status_code 200) "audit config update went wrong"

  unfoldable pub update_security_config : RestClient → Json → Exec (Unit {0})
  update_security_config rc configuration = do
    answer ←
        send_request w rc Method.put "_plugins/_security/api/securityconfig/config"
          (some configuration)
    accept answer (eqb answer.status_code 200) "security configuration update went wrong"

  unfoldable pub update_with : RestClient → Option Json → Exec (Unit {0})
  update_with rc none = pure tt
  update_with rc (some null) = pure tt
  update_with rc (some v) = update_security_config rc v

  unfoldable pub update_from : RestClient → Option Body → Exec (Unit {0})
  update_from rc none = pure tt
  update_from rc (some b) = elim (k.read_yaml b.text) [
    | inr e ↦ raise e
    | inl configuration ↦ update_with rc (find "config" configuration)
  ]

  unfoldable pub update_security_configuration : RestClient → Exec (Unit {0})
  update_security_configuration rc = do
    content ← find_secret w k spec.security_configuration_name
    update_from rc (lookup "config.yml" content)

  -- Where the cluster refuses the change as read-only, its security is configured anew by a script, and the
  -- error is returned all the same.
  unfoldable pub recover_from : RestClient → Error → Exec Credentials
  recover_from rc e =
      if is_read_only e
      then (do
        pod ← get_cluster_manager_node rc
        call w (run_command pod "/usr/share/opensearch/bin/reconfiguration.sh")
        raise e)
      else raise e

  unfoldable pub settled : RestClient → Credentials ⊎ Error → Exec Credentials
  settled rc (inl c) = pure c
  settled rc (inr e) = recover_from rc e

  unfoldable pub grant_all_access : RestClient → RoleMapping → Exec (Unit {0})
  grant_all_access rc m = if is_some m.backend_roles then pure tt else (do
    new ← parse_secret_credentials w k (spec.name <> "-secret")
    update_roles w k rc new.username "all_access")

  unfoldable pub configure_security : RestClient → Exec (Unit {0})
  configure_security rc = do
    hash ← calculate_secret_data_hash w k spec.config_hash spec.security_configuration_name
    if not (spec.config_hash == "") && not (spec.config_hash == hash)
        then update_security_configuration rc
        else pure tt
    note (stored_hash "config.opensearch" hash)

  unfoldable pub mapped : RestClient → String ⊎ Error → Exec (Unit {0})
  mapped rc (inr e) = pure tt
  mapped rc (inl hash) = do
    if spec.role_mappings_hash == "" || not (spec.role_mappings_hash == hash)
        then update_ldap_rolesmapping w k rc spec.name
        else pure tt
    note (stored_hash "rolemappings" hash)

  -- An error of the hash is not returned: there need be no such secret.
  unfoldable pub configure_role_mappings : RestClient → Exec (Unit {0})
  configure_role_mappings rc = do
    hash ←
        attempt (
          calculate_secret_data_hash w k spec.role_mappings_hash
            (spec.name <> "-ldap-rolemappings"))
    mapped rc hash

  unfoldable pub process_security : String → Exec RestClient
  process_security url = do
    old ← parse_secret_credentials w k (spec.name <> "-secret-old")
    all_access ← get_role_mapping w k (with_credentials url old) "all_access"
    grant_all_access (with_credentials url old) all_access
    new ← parse_secret_credentials w k (spec.name <> "-secret")
    changed ← attempt (update_credentials w k attempts url spec.name new old)
    current ← settled (with_credentials url old) changed
    update_audit_configuration (with_credentials url current) spec.disabled_rest_categories
    configure_security (with_credentials url current)
    configure_role_mappings (with_credentials url current)
    pure (with_credentials url current)

  unfoldable pub create_repository : RestClient → Option Snapshots → Exec (Unit {0})
  create_repository rc none = pure tt
  create_repository rc (some r) = create_snapshots_repository w k rc 5 r

  -- Configure, for the address with the client that could be configured, or the error of that.
  unfoldable pub configure : String ⊎ Error → Exec (Unit {0})
  configure (inr e) = raise e
  configure (inl url) = do
    rc ← process_security url
    create_repository rc spec.snapshots
    update_compatibility_mode w k rc spec.compatibility_mode_enabled
