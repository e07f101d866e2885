-- ===== src/DisasterRecovery/Checker.antt =====
-- disasterrecovery/replication_checker.go. Its RuleStats and AutofollowStats have the fields of the
-- types in controllers/replication_manager.go, and are decoded by the same functions.
use qubership_opensearch.Prelude.{
  String, Bool, true, false, not, ◌&&◌, ◌==◌, leb, starts_with, is_empty, Option, none, some, List,
  [], ◌∷◌, filter_bool, if◌then◌else◌, keys,
}
use qubership_opensearch.Prelude.Int.{pos, ltb_ℤ}
use qubership_opensearch.Json.{
  Json, fields, struct, Fields, text_field, decode_list, decode_map, decode_any,
}
use qubership_opensearch.Http.{
  Method, World, message, Exec, pure, panic, require_ok, ensure, ◌>>=◌, ◌>>◌, RestClient,
  send_request, send_request_with_status_code_check, unmarshal_to,
}
use qubership_opensearch.Replication.Stats.{RuleStats, decode_autofollow_stats}
use qubership_opensearch.Replication.Manager.{replication_name, status_path}
use qubership_opensearch.Replication.Check.{regex_of}

-- The constants UP, DEGRADED and DOWN of disaster_recovery_server.go.
pub data Health : Type 0 where
  up degraded down : Health

abbrev pub cat_indices_path : String
cat_indices_path = "_cat/indices?h=index,health&format=json"

abbrev pub failed_status : String
failed_status = "FAILED"

infixl 5 ◌>>=?◌
abbrev ◌>>=?◌ {ℓ κ} : {A : Type ℓ} {B : Type κ} → Option A → (A → Option B) → Option B
none >>=? f = none
some a >>=? f = f a

pub record IndexReplicationStatus : Type 0 where
  pub status : String

unfoldable pub decode_index_replication_status : Json → Option IndexReplicationStatus
decode_index_replication_status v =
    fields v >>=? λ fs. text_field "status" fs >>=? λ status. some (record { status = status })

pub record Index : Type 0 where
  pub index : String
  pub health : String

unfoldable pub decode_index : Fields → Option Index
decode_index fs = text_field "index" fs >>=? λ index.
    text_field "health" fs >>=? λ health. some (record { index = index; health = health })

abbrev pub is_visible : String → Bool
is_visible s = not (starts_with s ".")

-- The verdict that the counters of the rule give at once, if they give one.
unfoldable pub rule_verdict : RuleStats → Option Health
rule_verdict rule =
    if rule.name == replication_name
    then (if is_empty (filter_bool is_visible rule.failed_indices)
        then (if ltb_ℤ (pos 0) rule.failed_start then some degraded else none)
        else (if ltb_ℤ (pos 0) rule.success_start then some degraded else some down))
    else none

-- The names of the red indices that match.
unfoldable pub red_indices : (String → Bool) → List Index → List String
red_indices matches [] = []
red_indices matches (i ∷ is) =
    let rest = red_indices matches is in
    if matches i.index && i.health == "red" then i.index ∷ rest else rest

-- regexp.MustCompile panics on a text that is no regular expression.
unfoldable pub must_compile : World → String → Exec (String → Bool)
must_compile w text = elim (w.compile text) [
  | none ↦ panic "regexp: Compile"
  | some matches ↦ pure matches
]

module _ (w : World) (rc : RestClient) where
  unfoldable pub list_unhealthy_indices : String → Exec (List String)
  list_unhealthy_indices pattern' = do
    body ← send_request_with_status_code_check w rc Method.get cat_indices_path none
    indices ← unmarshal_to (decode_list (struct decode_index)) body
    matches ← must_compile w (regex_of pattern')
    pure (red_indices matches indices)

  unfoldable pub get_index_replication_status : String → Exec IndexReplicationStatus
  get_index_replication_status index = do
    reply ← send_request w rc Method.get (status_path index) none
    require_ok reply.error
    unmarshal_to decode_index_replication_status reply.body

  -- The loop of areFailedReplicationsFound. It ends at the first failed index.
  unfoldable pub find_failed : List String → Exec Bool
  find_failed [] = pure false
  find_failed (index ∷ indices) = if starts_with index "." then find_failed indices else (do
    s ← get_index_replication_status index
    if s.status == failed_status then pure true else find_failed indices)

  unfoldable pub are_failed_replications_found : String → Exec Bool
  are_failed_replications_found pattern' = do
    body ← send_request_with_status_code_check w rc Method.get pattern' none
    indices ← unmarshal_to (decode_map decode_any) body
    find_failed (keys indices)

  unfoldable pub check_indices : String → Exec Health
  check_indices pattern' = do
    unhealthy ← list_unhealthy_indices pattern'
    if not (is_empty unhealthy) then pure degraded else do
      failed ← are_failed_replications_found pattern'
      pure (if failed then degraded else up)

  -- The body of the loop over the rules. It returns on every path, so the loop has one round.
  unfoldable pub check_rule : RuleStats → Exec Health
  check_rule rule = elim (rule_verdict rule) [
    | none ↦ check_indices rule.pattern
    | some verdict ↦ pure verdict
  ]

  unfoldable pub check_rules : List RuleStats → Exec Health
  check_rules [] = pure down
  check_rules (rule ∷ rules) = check_rule rule

  unfoldable pub check_replication : Exec Health
  check_replication = do
    reply ← send_request w rc Method.get "_plugins/_replication/autofollow_stats" none
    require_ok reply.error
    ensure (not (leb 500 reply.status_code)) (message "internal server error")
    stats ← unmarshal_to decode_autofollow_stats reply.body
    check_rules stats.autofollow_rule_stats
