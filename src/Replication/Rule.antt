-- ===== src/Replication/Rule.antt =====
-- The autofollow rule: how GetAutoFollowRuleStats finds it, and when RemoveReplicationRule deletes it.
use qubership_opensearch.Prelude.{
  ◌≡◌, ◌≢◌, refl, ap, true, Option, none, some, List, [], ◌∷◌, ◌++◌, All, arith, ◌==◌, eq_iff,
  Bool-cases, inl, inr, ◌∙◌,
}
use qubership_opensearch.Http.{
  Method, Event, sent, World, wrapped, Result, ok, err, panicked, pure, raise, require_ok, ensure,
  attempt, attempted, continue, lift, ◌>>=◌, send_request, send_basic_request, request_of,
  unmarshal_to,
}
use qubership_opensearch.Replication.Stats.{RuleStats}
use qubership_opensearch.Replication.Manager.{
  ReplicationManager, replication_name, start_full_replication_path, rule_reference, find_rule,
  get_auto_follow_rule_stats, delete_rule, removal_of, remove_replication_rule,
}

-- The first rule of the name: no rule before it has the name.
abbrev pub Found : List RuleStats → Option RuleStats → Type 0
Found rules none = All (λ r. r.name ≢ replication_name) rules
Found rules (some rule) =
    (before : List RuleStats) × (after : List RuleStats) × (rules ≡ before ++ rule ∷ after)
    × (rule.name ≡ replication_name)
    × All (λ r. r.name ≢ replication_name) before

Found-cons :
    (r : RuleStats) (rules : List RuleStats) (found : Option RuleStats)
    → r.name ≢ replication_name
    → Found rules found
    → Found (r ∷ rules) found
Found-cons r rules none other h = (other, h)
Found-cons r rules (some rule) other (before, after, split, named, others) =
    (r ∷ before, after, ap (λ l. r ∷ l) split, named, (other, others))

-- GetAutoFollowRuleStats returns the first rule whose name is "dr-replication", and nil only where
-- no rule has that name.
pub find_rule-Found : (rules : List RuleStats) → Found rules (find_rule rules)
unfolding find_rule
find_rule-Found [] = tt
find_rule-Found (r ∷ rules) = elim (Bool-cases (r.name == replication_name)) [
  | inl same ↦ rw same ([], rules, refl, (eq_iff r.name replication_name).0 same, tt)
  | inr other ↦ rw other (
      Found-cons r rules (find_rule rules) (λ e. cc (other, (eq_iff r.name replication_name).1 e))
        (find_rule-Found rules))
]

module _ (w : World) (rm : ReplicationManager) where
  abbrev pub read_rule_event : Event
  read_rule_event =
      sent (request_of rm.rest_client Method.get "_plugins/_replication/autofollow_stats" none true)

  abbrev pub delete_rule_event : Event
  delete_rule_event = sent (
      request_of rm.rest_client Method.delete start_full_replication_path (some rule_reference)
        true)

  -- The events and the result of a removal, by what the read of the rule returned.
  abbrev pub Removal :
      Result (Option RuleStats) → List Event → Result (Unit {0}) × List Event → Type 0
  Removal (err e) log (r, log') =
      (r ≡ err (wrapped "failed to get replication rule" e)) × (log' ≡ log ++ read_rule_event ∷ [])
  Removal (panicked text) log (r, log') = (r ≡ panicked text) × (log' ≡ log ++ read_rule_event ∷ [])
  Removal (ok none) log (r, log') = (r ≡ ok tt) × (log' ≡ log ++ read_rule_event ∷ [])
  Removal (ok (some rule)) log (r, log') =
      log' ≡ (log ++ read_rule_event ∷ []) ++ delete_rule_event ∷ []

  read-log :
      (log : List Event) → (get_auto_follow_rule_stats w rm log).1 ≡ log ++ read_rule_event ∷ []
  unfolding get_auto_follow_rule_stats send_request send_basic_request require_ok unmarshal_to lift
      pure ◌>>=◌
  read-log log = ground arith

  delete-log : (log : List Event) → (delete_rule w rm log).1 ≡ log ++ delete_rule_event ∷ []
  unfolding delete_rule send_request send_basic_request require_ok ensure ◌>>=◌
  delete-log log = ground arith

  removal_of-Removal :
      (r : Result (Option RuleStats)) (log log' : List Event)
      → log' ≡ log ++ read_rule_event ∷ []
      → Removal r log (continue (attempted r) (removal_of w rm) log')
  unfolding attempted removal_of raise pure
  removal_of-Removal (err e) log log' same = (refl, same)
  removal_of-Removal (panicked text) log log' same = (refl, same)
  removal_of-Removal (ok none) log log' same = (refl, same)
  removal_of-Removal (ok (some rule)) log log' same =
      delete-log log' ∙ ap (λ l. l ++ delete_rule_event ∷ []) same

  -- RemoveReplicationRule reads the autofollow statistics, and sends the DELETE request exactly
  -- where that read has found the rule. Without the rule it succeeds and changes nothing; a failed
  -- read is its error.
  pub remove_replication_rule-Removal :
      (log : List Event)
      → Removal (get_auto_follow_rule_stats w rm log).0 log (remove_replication_rule w rm log)
  unfolding remove_replication_rule attempt ◌>>=◌
  remove_replication_rule-Removal log = removal_of-Removal _ log _ (read-log log)
