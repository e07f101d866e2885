-- ===== src/DisasterRecovery/Verdict/Counters.antt =====
-- What the counters of a rule say.
use qubership_opensearch.Prelude.{
  ◌≡◌, ◌≢◌, ◌⊎◌, true, false, ◌==◌, eq_iff, ==-false, is_empty, none, some, filter_bool, arith,
  Bool-cases, inl, inr,
}
use qubership_opensearch.Prelude.Int.{pos, ltb_ℤ}
use qubership_opensearch.Replication.Stats.{RuleStats}
use qubership_opensearch.Replication.Manager.{replication_name}
use qubership_opensearch.DisasterRecovery.Checker.{up, down, is_visible, rule_verdict}

-- The counters of the DR rule are good: no visible index failed, and no start failed.
abbrev pub IsQuiet : RuleStats → Type 0
IsQuiet rule =
    (is_empty (filter_bool is_visible rule.failed_indices) ≡ true)
    × (ltb_ℤ (pos 0) rule.failed_start ≡ false)

pub rule_verdict-none :
    (rule : RuleStats) → rule_verdict rule ≡ none → (rule.name ≢ replication_name) ⊎ IsQuiet rule
unfolding rule_verdict
rule_verdict-none rule h = elim (Bool-cases (rule.name == replication_name)) [
  | inl named ↦ inr (ground arith)
  | inr other ↦ inl (λ e. cc (other, (eq_iff rule.name replication_name).1 e))
]

pub rule_verdict-ne-up : (rule : RuleStats) → rule_verdict rule ≢ some up
unfolding rule_verdict
rule_verdict-ne-up rule h = ground arith

pub rule_verdict_other :
    (rule : RuleStats) → rule.name ≢ replication_name → rule_verdict rule ≡ none
unfolding rule_verdict
rule_verdict_other rule other = rw (==-false _ _ other)

pub rule_verdict_down :
    (rule : RuleStats)
    → rule.name ≡ replication_name
    → is_empty (filter_bool is_visible rule.failed_indices) ≡ false
    → ltb_ℤ (pos 0) rule.success_start ≡ false
    → rule_verdict rule ≡ some down
unfolding rule_verdict
rule_verdict_down rule named failed no_success =
    rw ((eq_iff rule.name replication_name).1 named) (rw failed (rw no_success))
