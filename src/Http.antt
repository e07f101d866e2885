-- ===== src/Http.antt =====
-- util/rest_client.go, and the actions that the Go functions are translated to.
-- A function that does input and output is an `Exec A`: it gets the list of the events so far, the
-- latest last, and returns its result with the list made longer. What the other side answers is a
-- `World`, any function of the events so far and of the request: a cluster with a state, one that
-- fails at times and one that others change meanwhile are all among the worlds.
mod Types
mod Action
mod Client
pub mod Trace
pub mod Yields
pub mod Success
pub mod Staged
pub mod Poll
pub mod Automaton
pub mod Starts
pub use Types.{
  Method, Request, Body, Outcome, failed, broken, answered, Event, sent, slept, drew_uuid, dialled,
  called, locked, watched, hashed, looked_at, stored_hash, DrStatus, SetStatus, Call, set_status,
  set_users_recovery_state, enable_service, disable_service, scale_deployment, update_stateful_set,
  delete_pod, set_rolling_update_status, set_stateful_set_statuses, update_secret, set_credentials,
  run_command, annotate_deployment, set_condition, World, Error, transport, unmarshal, message,
  message_status, message_texts, wrapped,
}
pub use Action.{Exec, Result, ok, err, panicked, continue, ◌>>◌}
unfoldable pub use Action.{
  pure, raise, lift, attempt, attempted, panic, require_ok, ensure, sleep, new_uuid, dial, call,
  note, deferred, ◌>>=◌,
}
pub use Client.{RestClient, Credentials, Reply, request_of, reply_of}
unfoldable pub use Client.{
  send_basic_request, send_request, send_request_with_status_code_check, get_array_data,
  unmarshal_to, auth_of, filter_rows, item_of,
}
