-- ===== src/DisasterRecovery/Verdict/Indices.antt =====
-- What the checks of the indices of a rule have seen where they end with `up`.
use qubership_opensearch.Prelude.{
  String, ◌≡◌, refl, ap, subst, Bool, true, false, not, ◌&&◌, ◌==◌, starts_with, is_empty, none,
  some, List, [], ◌∷◌, All, if◌then◌else◌, arith, keys, Dict, Bool-cases, inl, inr,
}
use qubership_opensearch.Json.{Json, struct, decode_list, decode_map, decode_any}
use qubership_opensearch.Http.{
  Method, Event, World, ok, pure, panic, ◌>>=◌, RestClient, send_request_with_status_code_check,
  unmarshal_to, Body,
}
use qubership_opensearch.Http.Success.{>>=-eq-ok, pure-eq-ok}
use qubership_opensearch.Replication.Check.{regex_of}
use qubership_opensearch.DisasterRecovery.Checker.{
  up, degraded, Index, decode_index, IndexReplicationStatus, red_indices, must_compile,
  list_unhealthy_indices, get_index_replication_status, find_failed, are_failed_replications_found,
  check_indices, failed_status, cat_indices_path,
}

module _ (matches : String → Bool) where
  abbrev pub IsSound : Index → Type 0
  IsSound i = (matches i.index && i.health == "red") ≡ false

  pub red_indices-nil :
      (is : List Index) → is_empty (red_indices matches is) ≡ true → All IsSound is
  unfolding red_indices
  red_indices-nil [] h = tt
  red_indices-nil (i ∷ is) h = elim (Bool-cases (matches i.index && i.health == "red")) [
    | inl red ↦ absurd (cc (h, red))
    | inr sound ↦ (sound, red_indices-nil is (rw sound at h))
  ]

pub must_compile-eq-ok :
    (w : World) (text : String) (log end : List Event) (matches : String → Bool)
    → must_compile w text log ≡ (ok matches, end)
    → w.compile text ≡ some matches
unfolding must_compile panic pure
must_compile-eq-ok w text log end matches h = ground arith

module _ (w : World) (rc : RestClient) where
  -- The list of indices that was read, none of which is red and matches.
  abbrev pub NoneRed : String → List Event → Type 0
  NoneRed pattern' log =
      let listing = send_request_with_status_code_check w rc Method.get cat_indices_path none log in
      (body : Body) × (indices : List Index) × (matches : String → Bool) × (listing.0 ≡ ok body)
      × ((unmarshal_to (decode_list (struct decode_index)) body listing.1).0 ≡ ok indices)
      × (w.compile (regex_of pattern') ≡ some matches)
      × All (IsSound matches) indices

  -- Read one after another from `log` on, no visible index has the status FAILED.
  pub data NoneFailed : List String → List Event → Type 0 where
    finished : {log : List Event} → NoneFailed [] log
    hidden :
        {index : String} {indices : List String} {log : List Event}
        → starts_with index "." ≡ true
        → NoneFailed indices log
        → NoneFailed (index ∷ indices) log
    works :
        {index : String} {indices : List String} {log : List Event} (s : IndexReplicationStatus)
        → (get_index_replication_status w rc index log).0 ≡ ok s
        → (s.status == failed_status) ≡ false
        → NoneFailed indices (get_index_replication_status w rc index log).1
        → NoneFailed (index ∷ indices) log

  pub list_unhealthy_indices-NoneRed :
      (pattern' : String) (log end : List Event) (names : List String)
      → list_unhealthy_indices w rc pattern' log ≡ (ok names, end)
      → is_empty names ≡ true
      → NoneRed pattern' log
  unfolding list_unhealthy_indices
  list_unhealthy_indices-NoneRed pattern' log end names h none_red =
      let (body, listed, h1) = >>=-eq-ok _ _ log h in
      let (indices, decoded, h2) = >>=-eq-ok _ _ _ h1 in
      let (matches, compiled, h3) = >>=-eq-ok _ _ _ h2 in
      let (same, _) = pure-eq-ok _ _ h3 in
      (
        body,
        indices,
        matches,
        ap (λ p. p.0) listed,
        ap (λ p. p.0) decoded,
        must_compile-eq-ok w (regex_of pattern') _ _ matches compiled,
        red_indices-nil matches indices (rw same none_red),
      )

  pub find_failed-NoneFailed :
      (names : List String) (log end : List Event)
      → find_failed w rc names log ≡ (ok false, end)
      → NoneFailed names log
  unfolding find_failed
  find_failed-NoneFailed [] log end h = finished
  find_failed-NoneFailed (index ∷ names) log end h =
      visible (λ l. find_failed-NoneFailed names l end) (starts_with index ".") refl h
    where
      working :
          (s : IndexReplicationStatus) (l : List Event)
          → (b : Bool) → (s.status == failed_status) ≡ b
          → ((l : List Event) → find_failed w rc names l ≡ (ok false, end) → NoneFailed names l)
          → (if b then pure true else find_failed w rc names) l ≡ (ok false, end)
          → ((s.status == failed_status) ≡ false) × NoneFailed names l
      working s l true e again last = absurd (cc ((pure-eq-ok true l last).0))
      working s l false e again last = (e, again l last)

      visible :
          ((l : List Event) → find_failed w rc names l ≡ (ok false, end) → NoneFailed names l)
          → (b : Bool) → starts_with index "." ≡ b
          → (if b
                then find_failed w rc names
                else get_index_replication_status w rc index >>= λ s.
                    if s.status == failed_status then pure true else find_failed w rc names)
              log
            ≡ (ok false, end)
          → NoneFailed (index ∷ names) log
      visible again true e last = hidden e (again log last)
      visible again false e last =
          let (s, read, more) = >>=-eq-ok _ _ log last in
          let (fine, rest) = working s _ (s.status == failed_status) refl again more in
          works s (ap (λ p. p.0) read) fine rest

  -- The names that the search for failed replications goes through, and how it went.
  abbrev pub NoneFailedOf : String → List Event → Type 0
  NoneFailedOf pattern' log =
      let answer = send_request_with_status_code_check w rc Method.get pattern' none log in
      (body : Body) × (indices : Dict Json) × (answer.0 ≡ ok body)
      × ((unmarshal_to (decode_map decode_any) body answer.1).0 ≡ ok indices)
      × NoneFailed (keys indices) (unmarshal_to (decode_map decode_any) body answer.1).1

  pub are_failed-NoneFailed :
      (pattern' : String) (log end : List Event)
      → are_failed_replications_found w rc pattern' log ≡ (ok false, end)
      → NoneFailedOf pattern' log
  unfolding are_failed_replications_found
  are_failed-NoneFailed pattern' log end h =
      let (body, answered, h1) = >>=-eq-ok _ _ log h in
      let (indices, decoded, h2) = >>=-eq-ok _ _ _ h1 in
      (
        body,
        indices,
        ap (λ p. p.0) answered,
        ap (λ p. p.0) decoded,
        find_failed-NoneFailed (keys indices) _ end h2,
      )

  -- What a check of the indices of a rule has seen where it ends in `up`.
  abbrev pub Sound : String → List Event → Type 0
  Sound pattern' log = NoneRed pattern' log × ((log' : List Event) × NoneFailedOf pattern' log')

  pub check_indices-Sound :
      (pattern' : String) (log end : List Event)
      → check_indices w rc pattern' log ≡ (ok up, end)
      → Sound pattern' log
  unfolding check_indices
  check_indices-Sound pattern' log end h =
      let (names, listed, h1) = >>=-eq-ok _ _ log h in red names _ listed (is_empty names) refl h1
    where
      last_test :
          (failed : Bool) (l : List Event)
          → pure (if failed then degraded else up) l ≡ (ok up, end)
          → failed ≡ false
      last_test true l h = absurd (cc ((pure-eq-ok degraded l h).0))
      last_test false l h = refl

      red :
          (names : List String) (l : List Event)
          → list_unhealthy_indices w rc pattern' log ≡ (ok names, l)
          → (b : Bool) → is_empty names ≡ b
          → (if not b
                then pure degraded
                else are_failed_replications_found w rc pattern' >>= λ failed.
                    pure (if failed then degraded else up))
              l
            ≡ (ok up, end)
          → Sound pattern' log
      red names l listed false e last = absurd (cc ((pure-eq-ok degraded l last).0))
      red names l listed true e last =
          let (failed, searched, more) = >>=-eq-ok _ _ l last in
          let none_failed = last_test failed _ more in
          (
            list_unhealthy_indices-NoneRed pattern' log l names listed e,
            (
              l,
              are_failed-NoneFailed pattern' l _ (
                  subst
                    (λ b.
                      are_failed_replications_found w rc pattern' l
                      ≡ (ok b, (are_failed_replications_found w rc pattern' l).1))
                    none_failed searched),
            ),
          )
