-- ===== src/DisasterRecovery/Resource.antt =====
-- What Configure of controllers/disaster_recovery_reconciler.go reads and keeps: the resource, its own
-- variables, and the statuses it writes, with isReplicationCheckNeeded.
use Prim.Native.Char.{code}
use qubership_opensearch.Prelude.{
  ◌+◌, ◌⊎◌, inl, inr, String, Bool, true, false, ◌==◌, ◌||◌, ◌&&◌, not, eqb, leb, is_some, Option,
  none, some, if◌then◌else◌,
}
use qubership_opensearch.Http.{Error, DrStatus}
use qubership_opensearch.DisasterRecovery.Recovery.{DbaasAdapter}

-- What is read of the resource, of the environment and of the reconciler's own state.
pub record Resource : Type 0 where
  pub name : String
  pub mode : String
  pub no_wait : Bool
  pub watcher_enabled : Bool
  pub adapter : Option DbaasAdapter
  pub status_mode : String
  pub status : String
  pub users_recovery_state : String
  pub gke_service : String
  pub stored_hash : String

-- strings.ToLower(s) == t, for a text t of small ASCII letters
unfoldable pub equals_lowered : String → String → Bool
equals_lowered String.[] String.[] = true
equals_lowered String.[] (String.◌∷◌ d t) = false
equals_lowered (String.◌∷◌ c s) String.[] = false
equals_lowered (String.◌∷◌ c s) (String.◌∷◌ d t) =
    let rest = equals_lowered s t in
    let small = if leb 65 (code c) && leb (code c) 90 then code c + 32 else code c in
    eqb small (code d) && rest

unfoldable pub is_replication_check_needed : Resource → Bool
is_replication_check_needed cr =
    if cr.no_wait
    then false
    else equals_lowered cr.mode "active"
      && (not (equals_lowered cr.status_mode "active")
          || equals_lowered cr.status_mode "active" && equals_lowered cr.status "failed")

-- crCondition
unfoldable pub is_switch_due : Resource → Bool
is_switch_due cr =
    not (cr.mode == cr.status_mode)
    || cr.status == "running"
    || cr.status == "failed"
    || cr.status == "queue"

unfoldable pub is_hash_changed : Resource → String → Bool
is_hash_changed cr hash = not (cr.stored_hash == "") && not (cr.stored_hash == hash)

-- The variables of Configure. `early` says that it has returned before its end.
pub record Locals : Type 0 where
  pub error : Option Error
  pub message : String
  pub users_recovery_state : String
  pub need_return : Bool
  pub early : Bool

abbrev pub untouched : Locals
untouched = record {
  error = none;
  message = "";
  users_recovery_state = "done";
  need_return = true;
  early = false;
}

abbrev pub text_of : String → Option (String ⊎ Error)
text_of text = if text == "" then none else some (inl text)

abbrev pub status_of : Resource → String → Option (String ⊎ Error) → String → DrStatus
status_of cr status text state = record {
  mode = cr.mode;
  status = status;
  message = text;
  users_recovery_state = if is_some cr.adapter then some state else none;
}

-- The status that the deferred function writes.
unfoldable pub final_status : Resource → Locals → DrStatus
final_status cr l = elim l.error [
  | none ↦ status_of cr "done" (text_of l.message) l.users_recovery_state
  | some e ↦ status_of cr "failed" (some (inr e)) l.users_recovery_state
]

-- The state of the users' recovery that is written when a switchover begins.
unfoldable pub opening_state : Resource → String
opening_state cr =
    if not (cr.users_recovery_state == "running") then "idle" else cr.users_recovery_state

abbrev pub opening_message : String
opening_message = "The switchover process for OpenSearch has been started"

abbrev pub with_error : Locals → Option Error → Locals
with_error l e = record l { error = e }
