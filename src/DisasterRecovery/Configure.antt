-- ===== src/DisasterRecovery/Configure.antt =====
-- Configure of controllers/disaster_recovery_reconciler.go, with the functions on the client
-- services. The config map, the secrets and the hash are arguments.
pub mod Defers
pub mod Outcome
use Prim.Native.Char.{code}
use qubership_opensearch.Prelude.{
  ℕ, ◌+◌, ◌⊎◌, inl, inr, String, Bool, true, false, ◌==◌, ◌||◌, ◌&&◌, not, eqb, leb, is_some,
  is_empty, Option, none, some, if◌then◌else◌, List, [], ◌∷◌,
}
use qubership_opensearch.Http.{
  World, Error, message, Exec, Result, ok, err, panicked, pure, raise, attempt, sleep, call, note,
  deferred, DrStatus, enable_service, disable_service, scale_deployment, set_status, locked,
  watched, hashed, ◌>>=◌, ◌>>◌,
}
use qubership_opensearch.Replication.Manager.{ReplicationManager}
use qubership_opensearch.DisasterRecovery.Process.{try, if_no_error, stop_replication_process}
use qubership_opensearch.DisasterRecovery.Switchover.{Switched, switch_to_standby, check_behind}
use qubership_opensearch.DisasterRecovery.Restart
use qubership_opensearch.DisasterRecovery.Recovery.{DbaasAdapter, Recovered, recover_users}
use qubership_opensearch.DisasterRecovery.Resource.{
  Resource, is_replication_check_needed, is_switch_due, is_hash_changed, Locals, untouched, text_of,
  status_of, final_status, opening_state, opening_message, with_error,
}

module _ (w : World) (cr : Resource) where
  unfoldable pub enable_client_services : Exec (Unit {0})
  enable_client_services = do
    call w (enable_service cr.name)
    if not (cr.gke_service == "") then call w (enable_service cr.gke_service) else pure tt

  unfoldable pub disable_client_services : Exec (Unit {0})
  disable_client_services = do
    call w (disable_service cr.name)
    if not (cr.gke_service == "") then call w (disable_service cr.gke_service) else pure tt

module _ (w : World) (rm : ReplicationManager) (cr : Resource) where
  -- The numbers of attempts and rounds are the bounds of the two polls and of the users' recovery.
  module _ (remote : String ⊎ Error) (attempts rounds : ℕ) where
    unfoldable pub standby : Exec Locals
    standby = do
      s ← switch_to_standby w rm cr.status_mode remote attempts
      pure (record untouched {
        error = s.error;
        message = "The replication has started successfully";
        need_return = s.need_return;
      })

    -- The recovery of the users. There is no result where it is not over after the rounds.
    unfoldable pub recover : Locals → DbaasAdapter → Exec (Option Locals)
    recover l a = do
      scaled ← try (call w (scale_deployment a.name 1))
      if is_some scaled then pure (some (with_error l scaled)) else do
        r ← recover_users w a attempts rounds cr.users_recovery_state
        pure (elim r [
          | none ↦ none
          | some recovered ↦
              some (record l { users_recovery_state = recovered.0; error = recovered.1 })
        ])

    -- What follows in the mode "active" once the replication is stopped.
    unfoldable pub activate : Locals → Exec (Option Locals)
    activate l = do
      enabled ← if_no_error l.error (enable_client_services w cr)
      if not (is_some enabled) && is_switch_due cr
          then elim cr.adapter [
            | none ↦ pure (some (with_error l enabled))
            | some a ↦ recover (with_error l enabled) a
          ]
          else pure (some (with_error l enabled))

    -- The switchover to the mode "active" or "disable".
    unfoldable pub leave_standby : Bool → Exec (Option Locals)
    leave_standby check_needed = do
      checked ← try (Restart.check_replication w rm true)
      verified ← check_behind w rm checked check_needed
      stopped ← if_no_error verified (stop_replication_process w rm)
      let l = record untouched {
        error = stopped;
        message =
            if not (is_some checked) && check_needed
            then "The replication has stopped successfully"
            else "Switchover mode has been changed without replication check";
      }
      if cr.mode == "active" then activate l else pure (some l)

    unfoldable pub switch_mode : Bool → Exec (Option Locals)
    switch_mode check_needed =
        if cr.mode == "standby"
        then (do l ← standby; pure (some l))
        else if cr.mode == "active" || cr.mode == "disable"
        then leave_standby check_needed
        else pure (some untouched)

    -- The switchover behind its first update of the status, with an early return.
    unfoldable pub disable_and_switch : Exec (Option Locals)
    disable_and_switch = do
      disabled ← try (disable_client_services w cr)
      if is_some disabled
          then pure (some (record untouched { error = disabled; early = true }))
          else do sleep 2000; switch_mode (is_replication_check_needed cr)

    abbrev opening_status : DrStatus
    opening_status = status_of cr "running" (some (inl opening_message)) (opening_state cr)

    abbrev unopened : Option Error → Locals
    unopened e = record untouched {
      error = e;
      users_recovery_state = opening_state cr;
      early = true;
    }

    unfoldable pub work : Exec (Option Locals)
    work = do
      opened ← try (call w (set_status opening_status))
      if is_some opened then pure (some (unopened opened)) else disable_and_switch

    -- The lock is given back by a deferred call.
    unfoldable pub release : Result (Option Locals) → Exec (Unit {0})
    release (ok none) = pure tt
    release (ok (some l)) = note (locked false)
    release (err e) = note (locked false)
    release (panicked text) = note (locked false)

    unfoldable pub settle : String → Option Locals → Exec (Option Locals)
    settle hash none = pure none
    settle hash (some l) =
        if l.early
        then pure (some l)
        else (do note (hashed hash); note (watched cr.watcher_enabled); pure (some l))

    -- The lock is held to the end of Configure: the watcher that is started meanwhile waits for it.
    unfoldable pub switch_over : String → Exec (Option Locals)
    switch_over hash = do
      note (watched false)
      note (locked true)
      deferred (do l ← work; settle hash l) release

    unfoldable pub body : String → Exec (Option Locals)
    body hash =
        if is_switch_due cr || is_hash_changed cr hash
        then switch_over hash
        else settle hash (some untouched)

    -- The deferred function. A panic can only come out of the check in the mode "standby".
    unfoldable pub at_panic : Locals
    at_panic = record untouched { message = "The replication has started successfully" }

    unfoldable pub close : Locals → Exec (Unit {0})
    close l = do
      attempt (call w (set_status (final_status cr l)))
      if cr.mode == "active" then (do attempt (enable_client_services w cr); pure tt) else pure tt

    unfoldable pub close_after : Result (Option Locals) → Exec (Unit {0})
    close_after (ok none) = pure tt
    close_after (ok (some l)) = close l
    close_after (err e) = close at_panic
    close_after (panicked text) = close at_panic

    unfoldable pub return_of : Option Locals → Exec (Option (Option Error))
    return_of none = pure none
    return_of (some l) = pure (some (if l.early || l.need_return then l.error else none))

    -- The argument is the result of calculateConfigDataHash. The result is the error that Configure
    -- returns, if it returns within the rounds of the users' recovery.
    unfoldable pub configure : String ⊎ Error → Exec (Option (Option Error))
    configure (inr e) = pure (some (some e))
    configure (inl hash) = do l ← deferred (body hash) close_after; return_of l
