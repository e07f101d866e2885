-- ===== src/Opensearch/Settings.antt =====
-- The settings and the health of the cluster in controllers/opensearch_reconciler.go.
use qubership_opensearch.Prelude.{
  ℕ, ◌⊎◌, inl, inr, String, Bool, true, false, ◌==◌, Option, none, some, [], ◌∷◌, if◌then◌else◌,
}
use qubership_opensearch.Prelude.Int.{ℤ, pos}
use qubership_opensearch.Json.{
  Json, null, str, object, Fields, get_field, text_field, int_field, struct,
}
use qubership_opensearch.Http.{
  Method, World, Error, message, RestClient, send_request_with_status_code_check, unmarshal_to,
  Exec, pure, raise, attempt, sleep, ◌>>=◌, ◌>>◌,
}
use qubership_opensearch.Http.Poll.{poll_immediate}

-- `*string`: `null` is nil.
unfoldable pub decode_pointer_text : Json → Option (Option String)
decode_pointer_text null = some none
decode_pointer_text (str s) = some (some s)
decode_pointer_text _ = none

abbrev nested : String → (Json → Option (Option String)) → Json → Option (Option String)
nested key decode = struct (get_field decode none key)

-- The value of persistent.cluster.routing.allocation.enable.
unfoldable pub decode_enable : Json → Option (Option String)
decode_enable = nested "persistent" (
    nested "cluster" (nested "routing" (nested "allocation" (nested "enable" decode_pointer_text))))

-- OpenSearch has "all" as its default.
unfoldable pub make_opensearch_settings : Bool → Json
make_opensearch_settings enabled =
    let value = if enabled then null else str "primaries" in
    let allocation = object (("enable", value) ∷ []) in
    let routing = object (("allocation", allocation) ∷ []) in
    object (("persistent", object (("cluster", object (("routing", routing) ∷ [])) ∷ [])) ∷ [])

unfoldable pub is_enabled : Option String → Bool
is_enabled none = true
is_enabled (some value) = value == "all"

abbrev shards : Fields → Option ℤ
shards fs = elim (int_field "total" fs) [
  | none ↦ none
  | some total ↦ elim (int_field "successful" fs) [
    | none ↦ none
    | some successful ↦ int_field "failed" fs
  ]
]

-- The number of the shards that failed.
unfoldable pub decode_flush : Fields → Option ℤ
decode_flush = get_field (struct shards) (pos 0) "_shards"

unfoldable pub is_zero : ℤ → Bool
is_zero (pos ℕ.zero) = true
is_zero _ = false

unfoldable pub is_done : {A : Type 0} → A ⊎ Error → Bool
is_done (inl a) = true
is_done (inr e) = false

unfoldable pub healthy_of : Bool ⊎ Error → Bool
healthy_of (inl healthy) = healthy
healthy_of (inr e) = false

abbrev pub settings_path : String
settings_path = "_cluster/settings"

module _ (w : World) (rc : RestClient) where
  unfoldable pub is_opensearch_healthy : Exec Bool
  is_opensearch_healthy = do
    body ← send_request_with_status_code_check w rc Method.get "_cluster/health" none
    status ← unmarshal_to (struct (text_field "status")) body
    pure (status == "green")

  unfoldable pub check_opensearch_health : ℕ → Exec (Unit {0})
  check_opensearch_health attempts =
      poll_immediate attempts (λ _. do r ← attempt is_opensearch_healthy; pure (healthy_of r)) none

  unfoldable pub get_settings : Exec (Option String)
  get_settings = do
    body ← send_request_with_status_code_check w rc Method.get settings_path none
    unmarshal_to decode_enable body

  unfoldable pub update_settings : Option Json → Exec (Unit {0})
  update_settings payload = do
    body ← send_request_with_status_code_check w rc Method.put settings_path payload
    pure tt

  -- The body of the update is one reader for all attempts.
  unfoldable pub change_allocation_setting : ℕ → Bool → Exec (Unit {0})
  change_allocation_setting attempts enable = do
    poll_immediate attempts (λ payload. do r ← attempt (update_settings payload); pure (is_done r))
        (some (make_opensearch_settings enable))
    enabled ← get_settings
    pure tt

  unfoldable pub enable_allocation_if_necessary : ℕ → Exec (Unit {0})
  enable_allocation_if_necessary attempts = do
    enabled ← get_settings
    if is_enabled enabled then pure tt else change_allocation_setting attempts true

  unfoldable pub exec_flush_procedure : Exec (Unit {0})
  exec_flush_procedure = do
    body ← send_request_with_status_code_check w rc Method.post "_flush" none
    failed ← unmarshal_to (struct decode_flush) body
    if is_zero failed
        then sleep 20000
        else raise (message "flush procedure finished with failed shards")
