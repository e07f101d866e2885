-- ===== src/Adapter/Accounts/Written.antt =====
-- What a user that was created or updated has gone through.
use qubership_opensearch.Prelude.{
  ℕ, zero, suc, ◌++◌, ◌⊎◌, inl, inr, ◌≡◌, refl, ap, ◌∙◌, subst, String, Bool, true, false,
  Bool-cases, ◌<>◌, ◌||◌, ◌==◌, eqb, Option, none, some, List, [], ◌∷◌,
}
use qubership_opensearch.Json.{Json}
use qubership_opensearch.Http.{
  Method, Event, sent, Body, World, Error, Outcome, failed, broken, answered, Exec, ok, pure, raise,
  attempt, ◌>>=◌,
}
use qubership_opensearch.Http.Success.{>>=-eq-ok, pure-eq-ok, raise-ne-ok, attempted-inl}
use qubership_opensearch.Http.Poll.{poll_immediate}
use qubership_opensearch.Adapter.Transport.{perform, request_to}
use qubership_opensearch.Adapter.Users.{users_path}
use qubership_opensearch.Adapter.Resources.{User}
use qubership_opensearch.Adapter.Deletion.{resource}
use qubership_opensearch.Adapter.Accounts.{
  BaseProvider, Account, created, patched, create_user, patch_user, failed_with, write_user,
  create_or_update_user, password_or_new, password_of,
}

abbrev pub IsWrite : Method → Type 0
IsWrite m = (m ≡ Method.put) ⊎ (m ≡ Method.patch)

-- The last event is a write of the user, which the world has answered with 200 or 201.
abbrev pub WrittenLast : World → String → List Event → Type 0
WrittenLast w username end =
    (before : List Event) × (m : Method) × (payload : Option Json) × (code : ℕ) × (b : Body)
    × IsWrite m
    × (w.respond before (request_to m (users_path <> "/" <> username) payload true)
        ≡ answered code b)
    × ((eqb code 200 || eqb code 201) ≡ true)
    × (end ≡ before ++ sent (request_to m (users_path <> "/" <> username) payload true) ∷ [])

module _ (w : World) (username : String) where
  abbrev write : Method → Option Json → Exec Outcome
  write m payload = perform w m (users_path <> "/" <> username) payload true

  -- The condition of a poll: where it holds, the write was accepted.
  abbrev Tells : Method → (Outcome → Exec Bool) → Type 0
  Tells m test =
      (outcome : Outcome) (log end : List Event)
      → test outcome log ≡ (ok true, end)
      → (code : ℕ) × (b : Body) × (outcome ≡ answered code b)
        × ((eqb code 200 || eqb code 201) ≡ true)
        × (end ≡ log)

  created-Tells : Tells Method.put created
  unfolding created pure raise
  created-Tells (failed e) log end h = cc
  created-Tells (broken code e) log end h = cc
  created-Tells (answered code b) log end h = (code, b, refl, cc, cc)

  patched-Tells : Tells Method.patch patched
  unfolding patched pure
  patched-Tells (failed e) log end h = cc
  patched-Tells (broken code e) log end h = cc
  patched-Tells (answered code b) log end h = (code, b, refl, cc, cc)

  condition-Written :
      (m : Method) (test : Outcome → Exec Bool) (payload : Option Json) (log end : List Event)
      → IsWrite m
      → Tells m test
      → (do outcome ← write m payload; test outcome) log ≡ (ok true, end)
      → WrittenLast w username end
  unfolding perform ◌>>=◌
  condition-Written m test payload log end is_write tells h =
      let (code, b, same, good, last) = tells _ _ end h in
      (log, m, payload, code, b, is_write, same, good, last)

  poll-Written :
      (m : Method) (test : Outcome → Exec Bool)
      → IsWrite m
      → Tells m test
      → (more : ℕ) (payload : Option Json) (log end : List Event) {u : Unit {0}}
      → poll_immediate more (λ p. do outcome ← write m p; test outcome) payload log ≡ (ok u, end)
      → WrittenLast w username end
  unfolding poll_immediate
  poll-Written m test is_write tells zero payload log end h =
      let (done, first, rest) = >>=-eq-ok _ _ log h in
      elim (Bool-cases done) [
        | inl good ↦
            let (_, last) = pure-eq-ok tt _ (rw good at rest) in
            subst (WrittenLast w username) last
              (condition-Written m test payload log _ is_write tells (rw good at first))
        | inr bad ↦ absurd (raise-ne-ok _ _ (rw bad at rest))
      ]
  poll-Written m test is_write tells (suc more) payload log end h =
      let (done, first, rest) = >>=-eq-ok _ _ log h in
      elim (Bool-cases done) [
        | inl good ↦
            let (_, last) = pure-eq-ok tt _ (rw good at rest) in
            subst (WrittenLast w username) last
              (condition-Written m test payload log _ is_write tells (rw good at first))
        | inr bad ↦ poll-Written m test is_write tells more none _ end (rw bad at rest)
      ]

module _ (w : World) (attempts : ℕ) (bp : BaseProvider) where
  failed_with-eq-ok :
      (text : String) (r : (Unit {0}) ⊎ Error) (log : List Event) {u : Unit {0}} {end : List Event}
      → failed_with w attempts bp text r log ≡ (ok u, end)
      → (r ≡ inl tt) × (log ≡ end)
  unfolding failed_with pure raise
  failed_with-eq-ok text (inl done) log h = (refl, cc)
  failed_with-eq-ok text (inr e) log h = cc

  -- An action whose error is only given another text.
  unwrapped :
      (text : String) (m : Exec (Unit {0})) (log : List Event) {u : Unit {0}} {end : List Event}
      → (do done ← attempt m; failed_with w attempts bp text done) log ≡ (ok u, end)
      → m log ≡ (ok tt, end)
  unfolding attempt
  unwrapped text m log h =
      let (done, first, rest) = >>=-eq-ok (attempt m) _ log h in
      let (good, last) = failed_with-eq-ok text done _ rest in
      let result = attempted-inl (m log).0 (rw good at (ap (λ z. z.0) first)) in
      ap (λ z. (z, (m log).1)) result ∙ ap (λ z. (ok tt, z)) last

  write_user-Written :
      (username password db_name role_type : String) (user : Option User) (log end : List Event)
      {u : Unit {0}}
      → (password == "") ≡ false
      → write_user w attempts bp username password db_name role_type user log ≡ (ok u, end)
      → WrittenLast w username end
  unfolding write_user create_user patch_user
  write_user-Written username password db_name role_type none log end given h =
      poll-Written w username Method.put created (inl refl) (created-Tells w username) attempts _
        log end (unwrapped _ _ log h)
  write_user-Written username password db_name role_type (some user) log end given h =
      poll-Written w username Method.patch patched (inr refl) (patched-Tells w username) attempts _
        log end (rw given at (unwrapped _ _ log h))

  abbrev pub GeneratesStrong : Type 0
  GeneratesStrong = (log : List Event) (s : String) → bp.generate log ≡ inl s → (s == "") ≡ false

  generated-IsStrong :
      (r : String ⊎ Error) (log : List Event) {p : String} {end : List Event}
      → ((s : String) → r ≡ inl s → (s == "") ≡ false)
      → password_of w attempts bp r log ≡ (ok p, end)
      → (p == "") ≡ false
  unfolding password_of pure raise
  generated-IsStrong (inl s) log strong h =
      subst (λ (t : String). (t == "") ≡ false) (cc) (strong s refl)
  generated-IsStrong (inr e) log strong h = cc

  password_or_new-IsStrong :
      (given : String) (log : List Event) {p : String} {end : List Event}
      → GeneratesStrong
      → password_or_new w attempts bp given log ≡ (ok p, end)
      → (p == "") ≡ false
  unfolding password_or_new
  password_or_new-IsStrong given log strong h = elim (Bool-cases (given == "")) [
    | inl missing ↦ generated-IsStrong (bp.generate log) log (strong log) (rw missing at h)
    | inr there ↦
        subst (λ (t : String). (t == "") ≡ false) (pure-eq-ok given log (rw there at h)).0 there
  ]

  -- A user whose creation or update succeeds is reported by its name, and the last request is a write of
  -- it that OpenSearch has answered with 200 or 201, if passwords are not empty.
  pub create_or_update_user-Written :
      (name given db_name role_type : String) (log end : List Event) {a : Account}
      → GeneratesStrong
      → create_or_update_user w attempts bp name given db_name role_type log ≡ (ok a, end)
      → WrittenLast w a.username end × (a.resources ≡ resource "user" a.username ∷ [])
  unfolding create_or_update_user
  create_or_update_user-Written name given db_name role_type log end strong h =
      let (username, named, rest) = >>=-eq-ok _ _ log h in
      let (password, secret, rest) = >>=-eq-ok _ _ _ rest in
      let (user, read, rest) = >>=-eq-ok _ _ _ rest in
      let (_, written, rest) = >>=-eq-ok _ _ _ rest in
      let (same, last) = pure-eq-ok _ _ rest in
      let strong_one = password_or_new-IsStrong given _ strong secret in
      let at_end =
        subst (WrittenLast w username) last
          (write_user-Written username password db_name role_type user _ _ strong_one written) in
      subst
        (λ (b : Account).
          WrittenLast w b.username end × (b.resources ≡ resource "user" b.username ∷ []))
        same (at_end, refl)
