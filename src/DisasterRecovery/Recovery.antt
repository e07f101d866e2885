-- ===== src/DisasterRecovery/Recovery.antt =====
-- recoverUsers of controllers/disaster_recovery_reconciler.go, the operator's side of the recovery of
-- the users.
pub mod End
use qubership_opensearch.Prelude.{
  ℕ, zero, suc, ◌⊎◌, inl, inr, String, Bool, true, false, ◌==◌, ◌||◌, ◌&&◌, not, eqb, is_some,
  Option, none, some, if◌then◌else◌, List, [], ◌∷◌,
}
use qubership_opensearch.Json.{Json, object, str}
use qubership_opensearch.Http.{
  Method, World, Error, message, Exec, pure, raise, attempt, sleep, call, set_users_recovery_state,
  ◌>>=◌, ◌>>◌, RestClient, Reply, send_request,
}
use qubership_opensearch.DisasterRecovery.Process.{poll, poll_interval, try}

-- What of the DBaaS adapter's section of the resource is read.
pub record DbaasAdapter : Type 0 where
  pub name : String
  pub physical_database_identifier : String
  pub aggregator : RestClient
  pub adapter : RestClient

abbrev recovery_request : DbaasAdapter → Json
recovery_request a = object (
    ("physicalDbId", str a.physical_database_identifier)
    ∷ ("type", str "opensearch")
    ∷ ("settings", object [])
    ∷ [])

abbrev pub restore_password_path : String
restore_password_path = "api/v3/dbaas/internal/physical_databases/users/restore-password"

abbrev pub restore_state_path : String
restore_state_path = "api/v2/dbaas/adapter/opensearch/users/restore-password/state"

-- `err == nil && statusCode == http.StatusOK`
unfoldable pub is_answered : Reply → Bool
is_answered reply = not (is_some reply.error) && eqb reply.status_code 200

-- The two results of recoverUsers: the state, and the error.
abbrev pub Recovered : Type 0
Recovered = String × Option Error

unfoldable pub recovered_of : String → Recovered
recovered_of state =
    if state == "failed"
    then ("failed", some (message "unable to restore OpenSearch users during switchover"))
    else (state, none)

-- The state that the loop begins with.
unfoldable pub initial_state : String → String
initial_state state = if not (state == "running") then "idle" else state

unfoldable pub state_after : String → Reply → String
state_after state reply = if is_answered reply then reply.body.text else state

-- What follows a round: the next one, or a return.
unfoldable pub proceed :
    (String → Exec (Option Recovered)) → String ⊎ Error → Exec (Option Recovered)
proceed again (inl next) = again next
proceed again (inr e) = pure (some ("running", some e))

-- wait.PollImmediate: the first attempt is made at once.
unfoldable pub poll_immediate : ℕ → Exec Bool → Exec (Unit {0})
unfolding poll
poll_immediate attempts condition = do
  done ← condition
  if done then pure tt else poll attempts condition

module _ (w : World) (a : DbaasAdapter) (attempts : ℕ) where
  unfoldable pub request_recovery : Exec Bool
  request_recovery = do
    reply ←
        send_request w a.aggregator Method.post restore_password_path (some (recovery_request a))
    pure (is_answered reply)

  -- The part of a round behind the first request, where the state is not yet "running".
  unfoldable pub begin_recovery : Exec (Option Error)
  begin_recovery = try (poll_immediate attempts request_recovery)

  unfoldable pub read_state : String → Exec String
  read_state state = do
    sleep 5000
    reply ← send_request w a.adapter Method.get restore_state_path none
    pure (state_after state reply)

  -- One round of the loop: a new state, or an error that ends the function.
  unfoldable pub recovery_round : String → Exec (String ⊎ Error)
  recovery_round state =
      if state == "idle"
      then (do
        begun ← begin_recovery
        if is_some begun then pure (inl "failed") else do
          marked ← attempt (call w (set_users_recovery_state "running"))
          elim marked [
            | inl done ↦ do next ← read_state state; pure (inl next)
            | inr e ↦ pure (inr e)
          ])
      else (do next ← read_state state; pure (inl next))

  -- The loop, for at most that many rounds. There is no result where it is not over by then: the
  -- code itself has no such bound.
  unfoldable pub recovery_loop : ℕ → String → Exec (Option Recovered)
  recovery_loop zero state =
      pure (if state == "done" || state == "failed" then some (recovered_of state) else none)
  recovery_loop (suc rounds) state =
      if state == "done" || state == "failed"
      then pure (some (recovered_of state))
      else (do r ← recovery_round state; proceed (λ next. recovery_loop rounds next) r)

  unfoldable pub recover_users : ℕ → String → Exec (Option Recovered)
  recover_users rounds state =
      if state == "" then pure (some ("done", none)) else recovery_loop rounds (initial_state state)
