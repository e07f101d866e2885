-- ===== src/DisasterRecovery/Health.antt =====
-- The /healthz endpoint of disasterrecovery/disaster_recovery_server.go.
use qubership_opensearch.Prelude.{
  ℕ, String, ◌⊎◌, inl, inr, not, ◌||◌, ◌==◌, Option, none, some, List, [], ◌∷◌, if◌then◌else◌,
}
use qubership_opensearch.Http.{World, Error, Exec, pure, panic, attempt, ◌>>=◌, RestClient}
use qubership_opensearch.DisasterRecovery.Checker.{Health, up, down, check_replication}

pub record Response : Type 0 where
  pub status_code : ℕ
  pub status : Health

-- sendFailedHealthResponse and sendSuccessfulResponse
abbrev pub failed_response : Response
failed_response = record { status_code = 500; status = down }

abbrev pub successful_response : Health → Response
successful_response h = record { status_code = 200; status = h }

unfoldable pub response_of : Health ⊎ Error → Response
response_of (inl status) = successful_response status
response_of (inr e) = failed_response

module _ (w : World) (rc : RestClient) where
  unfoldable pub health_of_mode : String → Exec Response
  health_of_mode mode =
      if mode == "active" || mode == "disable"
      then pure (successful_response up)
      else if not (mode == "standby")
      then pure failed_response
      else (do status ← attempt (check_replication w rc); pure (response_of status))

  -- The values of the query parameter `mode`, if it is there. `mode[0]` of no value panics.
  unfoldable pub get_cluster_health_status : Option (List String) → Exec Response
  get_cluster_health_status none = pure failed_response
  get_cluster_health_status (some []) = panic "index out of range"
  get_cluster_health_status (some (mode ∷ modes)) = health_of_mode mode
