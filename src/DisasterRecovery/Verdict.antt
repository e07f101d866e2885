-- ===== src/DisasterRecovery/Verdict.antt =====
-- What the verdicts of the replication checker say.
pub mod Counters
pub mod Indices
use qubership_opensearch.Prelude.{
  String, ◌≡◌, ◌≢◌, ◌⊎◌, refl, sym, ap, subst, ◌∙◌, Bool, true, false, not, ◌&&◌, ◌==◌, eq_iff,
  ==-false, starts_with, is_empty, Option, none, some, List, [], ◌∷◌, ◌++◌, ℕ, filter_bool, All,
  if◌then◌else◌, arith, keys, not-true→false, leb, Dict, Bool-cases, inl, inr,
}
use qubership_opensearch.Prelude.Int.{pos, ltb_ℤ}
use qubership_opensearch.Json.{Json, struct, decode_list, decode_map, decode_any}
use qubership_opensearch.Http.{
  Method, Request, Event, sent, Outcome, answered, World, ok, Exec, pure, panic, ◌>>=◌, RestClient,
  request_of, reply_of, send_request, send_basic_request, unmarshal_to, Body, Reply,
}
use qubership_opensearch.Http.Success.{
  >>=-eq-ok, pure-eq-ok, ensure-eq-ok, require_ok-eq-ok, unmarshal_to-eq-ok, reply_of-answered,
  ok-injective,
}
use qubership_opensearch.Replication.Stats.{RuleStats, AutofollowStats, decode_autofollow_stats}
use qubership_opensearch.Replication.Manager.{replication_name}
use qubership_opensearch.Replication.Check.{regex_of}
use qubership_opensearch.DisasterRecovery.Checker.{
  Health, up, degraded, down, Index, decode_index, IndexReplicationStatus, is_visible, rule_verdict,
  red_indices, must_compile, list_unhealthy_indices, get_index_replication_status, find_failed,
  are_failed_replications_found, check_indices, check_rule, check_rules, check_replication,
  failed_status, cat_indices_path,
}
use qubership_opensearch.DisasterRecovery.Verdict.Counters.{
  IsQuiet, rule_verdict-none, rule_verdict-ne-up, rule_verdict_other, rule_verdict_down,
}
use qubership_opensearch.DisasterRecovery.Verdict.Indices.{Sound, check_indices-Sound}

-- `up` was answered: the first rule that was read, its counters if it is the DR rule, and what was
-- seen of its indices.
abbrev pub Confirmed : World → RestClient → List RuleStats → List Event → Type 0
Confirmed w rc rules log =
    (rule : RuleStats) × (others : List RuleStats) × (rules ≡ rule ∷ others)
    × (rule_verdict rule ≡ none)
    × Sound w rc rule.pattern log

module _ (w : World) (rc : RestClient) where
  check_rules-Confirmed :
      (rules : List RuleStats) (log end : List Event)
      → check_rules w rc rules log ≡ (ok up, end)
      → Confirmed w rc rules log
  unfolding check_rules check_rule
  check_rules-Confirmed [] log end h = absurd (cc ((pure-eq-ok down log h).0))
  check_rules-Confirmed (rule ∷ rules) log end h = go (rule_verdict rule) refl h
    where
      go :
          (v : Option Health)
          → rule_verdict rule ≡ v
          → (elim v as (λ _. Exec Health) [
            | none ↦ check_indices w rc rule.pattern
            | some verdict ↦ pure verdict
          ])
              log
            ≡ (ok up, end)
          → Confirmed w rc (rule ∷ rules) log
      go none e last = (rule, rules, refl, e, check_indices-Sound w rc rule.pattern log end last)
      go (some verdict) e last =
          absurd (rule_verdict-ne-up rule (e ∙ ap some (pure-eq-ok verdict log last).0))

  abbrev pub statistics_request : Request
  statistics_request = request_of rc Method.get "_plugins/_replication/autofollow_stats" none true

  -- The list of rules that the answer to the first request of the run has.
  abbrev pub ReadRules : List Event → List RuleStats → Type 0
  ReadRules log rules =
      (code : ℕ) × (body : Body) × (doc : Json) × (stats : AutofollowStats) × (w.respond log
          statistics_request
        ≡ answered code body)
      × (leb 500 code ≡ false)
      × (body.document ≡ some doc)
      × (decode_autofollow_stats doc ≡ some stats)
      × (rules ≡ stats.autofollow_rule_stats)

  answered_with :
      (reply : Reply) (o : Outcome) (log : List Event)
      → reply ≡ reply_of o
      → reply.error ≡ none
      → leb 500 reply.status_code ≡ false
      → (rules : List RuleStats)
      → (doc : Json) × (stats : AutofollowStats) × (reply.body.document ≡ some doc)
        × (decode_autofollow_stats doc ≡ some stats)
        × (rules ≡ stats.autofollow_rule_stats)
      → (code : ℕ) × (body : Body) × (doc : Json) × (stats : AutofollowStats) × (o
          ≡ answered code body)
        × (leb 500 code ≡ false)
        × (body.document ≡ some doc)
        × (decode_autofollow_stats doc ≡ some stats)
        × (rules ≡ stats.autofollow_rule_stats)
  answered_with reply o log same fine small rules (doc, stats, text, read, split) =
      let is_answer = reply_of-answered o (ap (λ (r : Reply). r.error) (sym same) ∙ fine) in
      (
        (reply_of o).status_code,
        (reply_of o).body,
        doc,
        stats,
        is_answer,
        ap (λ (r : Reply). leb 500 r.status_code) (sym same) ∙ small,
        ap (λ (r : Reply). r.body.document) (sym same) ∙ text,
        read,
        split,
      )

  abbrev pub SeenUp : List Event → Type 0
  SeenUp log =
      (rule : RuleStats) × (others : List RuleStats) × ReadRules log (rule ∷ others)
      × ((rule.name ≢ "dr-replication") ⊎ IsQuiet rule)
      × Sound w rc rule.pattern (log ++ sent statistics_request ∷ [])

  -- If the checker answers `up`, then it has read a list of rules that is not empty; where the
  -- first of them is the DR rule, none of its failed indices is visible and it counts no failed
  -- start; and in either case no index that matches the pattern of that rule is red, and none of
  -- the visible indices found by the pattern has the status FAILED.
  pub check_replication-up :
      (log end : List Event) → check_replication w rc log ≡ (ok up, end) → SeenUp log
  unfolding check_replication send_request send_basic_request
  check_replication-up log end h =
      let (reply, answered', h1) = >>=-eq-ok _ _ log h in
      let (_, no_error, h2) = >>=-eq-ok _ _ _ h1 in
      let (_, no_fault, h3) = >>=-eq-ok _ _ _ h2 in
      let (stats, decoded, h4) = >>=-eq-ok _ _ _ h3 in
      let (rule, others, split, silent, sound) =
        check_rules-Confirmed stats.autofollow_rule_stats _ end h4 in
      let given = ap (λ p. p.0) answered' in
      let (fine, l1) = require_ok-eq-ok _ _ no_error in
      let (small, l2) = ensure-eq-ok _ _ _ no_fault in
      let (doc, text, read, l3) = unmarshal_to-eq-ok _ _ _ decoded in
      (
        rule,
        others,
        answered_with reply (w.respond log statistics_request) log (ok-injective given) fine
            (not-true→false _ small) (rule ∷ others) (doc, stats, text, read, sym split),
        rule_verdict-none rule silent,
        subst (Sound w rc rule.pattern) (sym (l1 ∙ l2 ∙ l3)) sound,
      )

  -- The verdict depends on the order in which the cluster lists its rules: with a rule of another
  -- name whose indices are sound, and a DR rule with a failed visible index and no successful
  -- start, the checker says `up` if the other rule is listed first and `down` if the DR rule is.
  pub check_rules-order :
      (other dr : RuleStats) (log : List Event)
      → other.name ≢ replication_name
      → dr.name ≡ replication_name
      → is_empty (filter_bool is_visible dr.failed_indices) ≡ false
      → ltb_ℤ (pos 0) dr.success_start ≡ false
      → (check_indices w rc other.pattern log).0 ≡ ok up
      → ((check_rules w rc (other ∷ dr ∷ []) log).0 ≡ ok up)
        × ((check_rules w rc (dr ∷ other ∷ []) log).0 ≡ ok down)
  unfolding check_rules check_rule pure
  check_rules-order other dr log named_other named_dr failed no_success sound = (
    rw (rule_verdict_other other named_other, check_rule) sound,
    rw (rule_verdict_down dr named_dr failed no_success, check_rule),
  )
