-- ===== src/DisasterRecovery/Endpoint.antt =====
-- What the /healthz endpoint answers in each mode.
use qubership_opensearch.Prelude.{
  String, ◌≡◌, ◌≢◌, ◌⊎◌, inl, inr, refl, ap, ◌∙◌, ◌||◌, ◌==◌, eq_iff, some, List, ◌∷◌,
  if◌then◌else◌, arith,
}
use qubership_opensearch.Http.{Event, World, Error, ok, pure, attempt, RestClient}
use qubership_opensearch.Http.Success.{>>=-eq-ok, pure-eq-ok, attempted-inl}
use qubership_opensearch.DisasterRecovery.Checker.{Health, up, degraded, down, check_replication}
use qubership_opensearch.DisasterRecovery.Verdict.{SeenUp, check_replication-up}
use qubership_opensearch.DisasterRecovery.Health.{
  Response, failed_response, successful_response, response_of, health_of_mode,
  get_cluster_health_status,
}

degraded-ne-up : degraded ≢ up
degraded-ne-up h = cc

down-ne-up : down ≢ up
down-ne-up h = cc

response_of-up :
    (status : Health ⊎ Error) → response_of status ≡ successful_response up → status ≡ inl up
unfolding response_of
response_of-up (inl up) h = refl
response_of-up (inl degraded) h = absurd (degraded-ne-up (ap (λ (r : Response). r.status) h))
response_of-up (inl down) h = absurd (down-ne-up (ap (λ (r : Response). r.status) h))
response_of-up (inr e) h = absurd (down-ne-up (ap (λ (r : Response). r.status) h))

module _ (w : World) (rc : RestClient) (modes : List String) (log : List Event) where
  -- In a mode other than "standby" the endpoint sends no request. It answers 200 and `up` in the
  -- modes "active" and "disable", and 500 and `down` in any other.
  pub health-not_standby :
      (mode : String)
      → mode ≢ "standby"
      → get_cluster_health_status w rc (some (mode ∷ modes)) log ≡ (
        ok (
            if mode == "active" || mode == "disable"
            then successful_response up
            else failed_response),
        log,
      )
  unfolding get_cluster_health_status health_of_mode pure
  health-not_standby mode other = ground (arith, eq_iff mode "standby")

  -- The endpoint answers 200 and `up` in the mode "standby" only if the replication checker has
  -- seen what it calls `up`.
  pub health-standby_up :
      (end : List Event)
      → get_cluster_health_status w rc (some ("standby" ∷ modes)) log
        ≡ (ok (successful_response up), end)
      → SeenUp w rc log
  unfolding get_cluster_health_status health_of_mode attempt
  health-standby_up end h =
      let (status, tried, answered) = >>=-eq-ok _ _ log h in
      let up_seen = response_of-up status (pure-eq-ok _ _ answered).0 in
      check_replication-up w rc log _ (
        ap (λ r. (r, (check_replication w rc log).1))
          (attempted-inl _ (ap (λ p. p.0) tried ∙ ap ok up_seen)))
