-- ===== src/Opensearch/Trace.antt =====
-- What the requests of controllers/opensearch_reconciler.go to the cluster add to the events.
use qubership_opensearch.Prelude.{ℕ, String, Bool, true, leb, Option, none}
use qubership_opensearch.Json.{Json}
use qubership_opensearch.Http.{
  Method, Event, sent, slept, World, RestClient, request_of, send_request_with_status_code_check,
}
use qubership_opensearch.Http.Trace.{
  Adds, Adds-pure, Adds-raise, Adds-if, Adds-bind, Adds-attempt, Adds-require_ok, Adds-sleep,
  Adds-unmarshal_to, Adds-send_request,
}
use qubership_opensearch.Http.Poll.{Adds-poll_immediate}
use qubership_opensearch.Opensearch.Settings.{
  settings_path, is_opensearch_healthy, check_opensearch_health, get_settings, update_settings,
  change_allocation_setting, enable_allocation_if_necessary, exec_flush_procedure, is_enabled,
  is_zero,
}

module _ {P : Event → Type 0} (w : World) (rc : RestClient) where
  pub Adds-checked :
      (m : Method) (path : String) (payload : Option Json)
      → P (sent (request_of rc m path payload true))
      → Adds P (send_request_with_status_code_check w rc m path payload)
  unfolding send_request_with_status_code_check
  Adds-checked m path payload h = Adds-bind _ _ (Adds-send_request w rc m path payload h) λ reply.
      Adds-if (leb 400 reply.status_code) _ _ (Adds-raise _)
        (Adds-bind _ _ (Adds-require_ok reply.error) λ _. Adds-pure _)

  pub check_opensearch_health-Adds :
      (attempts : ℕ)
      → P (sent (request_of rc Method.get "_cluster/health" none true))
      → Adds P (check_opensearch_health w rc attempts)
  unfolding check_opensearch_health is_opensearch_healthy
  check_opensearch_health-Adds attempts h = Adds-poll_immediate attempts _ none λ _.
      Adds-bind _ _
        (Adds-attempt _ (
          Adds-bind _ _ (Adds-checked _ _ _ h)
            λ body. Adds-bind _ _ (Adds-unmarshal_to _ body) λ _. Adds-pure _))
        λ _. Adds-pure _

  pub get_settings-Adds :
      P (sent (request_of rc Method.get settings_path none true)) → Adds P (get_settings w rc)
  unfolding get_settings
  get_settings-Adds h = Adds-bind _ _ (Adds-checked _ _ _ h) λ body. Adds-unmarshal_to _ body

  pub update_settings-Adds :
      (payload : Option Json)
      → P (sent (request_of rc Method.put settings_path payload true))
      → Adds P (update_settings w rc payload)
  unfolding update_settings
  update_settings-Adds payload h = Adds-bind _ _ (Adds-checked _ _ _ h) λ _. Adds-pure _

  pub change_allocation_setting-Adds :
      (attempts : ℕ) (enable : Bool)
      → ((m : Method) (payload : Option Json)
          → P (sent (request_of rc m settings_path payload true)))
      → Adds P (change_allocation_setting w rc attempts enable)
  unfolding change_allocation_setting
  change_allocation_setting-Adds attempts enable h =
      Adds-bind _ _
        (Adds-poll_immediate attempts _ _ λ payload.
          Adds-bind _ _ (Adds-attempt _ (update_settings-Adds payload (h _ payload)))
            λ _. Adds-pure _)
        λ _. Adds-bind _ _ (get_settings-Adds (h _ none)) λ _. Adds-pure _

  pub enable_allocation_if_necessary-Adds :
      (attempts : ℕ)
      → ((m : Method) (payload : Option Json)
          → P (sent (request_of rc m settings_path payload true)))
      → Adds P (enable_allocation_if_necessary w rc attempts)
  unfolding enable_allocation_if_necessary
  enable_allocation_if_necessary-Adds attempts h =
      Adds-bind _ _ (get_settings-Adds (h _ none)) λ enabled.
        Adds-if (is_enabled enabled) _ _ (Adds-pure _)
          (change_allocation_setting-Adds attempts true h)

  pub exec_flush_procedure-Adds :
      P (sent (request_of rc Method.post "_flush" none true))
      → P (slept 20000)
      → Adds P (exec_flush_procedure w rc)
  unfolding exec_flush_procedure
  exec_flush_procedure-Adds h hs = Adds-bind _ _ (Adds-checked _ _ _ h) λ body.
      Adds-bind _ _ (Adds-unmarshal_to _ body)
        λ failed. Adds-if (is_zero failed) _ _ (Adds-sleep _ hs) (Adds-raise _)
