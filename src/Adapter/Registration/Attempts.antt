-- ===== src/Adapter/Registration/Attempts.antt =====
-- What an attempt to register leaves, and how many attempts there are.
use qubership_opensearch.Prelude.{
  ℕ, zero, suc, ◌++◌, ◌<◌, ◌⊎◌, inl, inr, ◌≡◌, ◌≢◌, refl, ap, sym, ◌∙◌, String, false, Bool-cases,
  Option, none, some, List, [], ◌∷◌, leb, arith,
}
use qubership_opensearch.Http.{
  Event, drew_uuid, World, Outcome, failed, broken, answered, Exec, Result, ok, err, panicked, pure,
  new_uuid, ◌>>=◌,
}
use qubership_opensearch.Http.Success.{>>=-eq-ok, raise-ne-ok}
use qubership_opensearch.Adapter.Accounts.{generate_uuid}
use qubership_opensearch.Adapter.Registration.{
  Codec, Registration, State, recovered, recover, state_after, poll_state, deliver,
  registration_request, send_registration, refused, registered, do_registration_request,
  attempted_of, register_with_retry,
}

abbrev pub code_of : Outcome → Option ℕ
code_of (failed e) = none
code_of (broken code e) = some code
code_of (answered code b) = some code

abbrev pub IsAccepted : Outcome → Type 0
IsAccepted outcome = (code : ℕ) × (code_of outcome ≡ some code) × (code < 400)

below : (code : ℕ) → leb 400 code ≡ false → code < 400
below code h = ground arith

once :
    (more : ℕ) (m : State → Exec (Option State)) (w : World) (c : Codec) (attempts : ℕ)
    (rs : Registration) (s : State) (log end : List Event) (r : Option State)
    → m s log ≡ (ok r, end)
    → poll_state more (λ s. do r ← m s; pure (attempted_of w c attempts rs r)) s log ≡ (ok r, end)
unfolding poll_state attempted_of pure ◌>>=◌
once zero m w c attempts rs s log end none e = rw e refl
once zero m w c attempts rs s log end (some s') e = rw e refl
once (suc more) m w c attempts rs s log end none e = rw e refl
once (suc more) m w c attempts rs s log end (some s') e = rw e refl

module _ (w : World) (c : Codec) (attempts : ℕ) (rs : Registration) where
  refused-ne-ok :
      (log end : List Event) {r : Option String} → refused w c attempts rs log ≢ (ok r, end)
  unfolding refused
  refused-ne-ok log end h =
      let (code, read, rest) = >>=-eq-ok _ _ log h in
      elim (Bool-cases (leb 400 code)) [
        | inl bad ↦ raise-ne-ok _ _ (rw bad at rest)
        | inr good ↦ raise-ne-ok _ _ (rw good at rest)
      ]

  registered-IsAccepted :
      (rounds : ℕ) (s : State) (outcome : Outcome) (log : List Event) {r : Option String}
      {end : List Event}
      → registered w c attempts rs rounds s outcome log ≡ (ok r, end)
      → IsAccepted outcome
  unfolding registered
  registered-IsAccepted rounds s (failed e) log h = absurd (refused-ne-ok log _ h)
  registered-IsAccepted rounds s (broken code e) log h = elim (Bool-cases (leb 400 code)) [
    | inl bad ↦ absurd (refused-ne-ok log _ (rw bad at h))
    | inr good ↦ (code, refl, below code good)
  ]
  registered-IsAccepted rounds s (answered code b) log h = elim (Bool-cases (leb 400 code)) [
    | inl bad ↦ absurd (refused-ne-ok log _ (rw bad at h))
    | inr good ↦ (code, refl, below code good)
  ]

  -- The response to the registration that an attempt sends.
  abbrev pub response : State → List Event → Outcome
  response s log =
      let log' = log ++ drew_uuid ∷ [] in
      w.respond log' (registration_request w c attempts rs s log')

  -- A good attempt was accepted, and sets the health to "OK". A bad one sets it to "PROBLEM", and leaves
  -- the status.
  abbrev pub Leaves : State → List Event → Option State → Type 0
  Leaves s log none = Unit
  Leaves s log (some s') =
      ((s'.health ≡ "OK") × IsAccepted (response s log))
      ⊎ ((s'.health ≡ "PROBLEM") × (s'.status ≡ s.status))

  state_after-Leaves :
      (s : State) (log log' end : List Event) (rounds : ℕ) (r : Result (Option String))
      → registered w c attempts rs rounds s (response s log) log' ≡ (r, end)
      → Leaves s log (state_after s (recovered r))
  unfolding state_after recovered
  state_after-Leaves s log log' end rounds (ok (some status)) h =
      inl (refl, registered-IsAccepted rounds s (response s log) log' h)
  state_after-Leaves s log log' end rounds (ok none) h = tt
  state_after-Leaves s log log' end rounds (err e) h = inr (refl, refl)
  state_after-Leaves s log log' end rounds (panicked text) h = inr (refl, refl)

  -- Neither an error nor a panic leaves an attempt to register. If it comes to its end, the health is "OK",
  -- and then the aggregator has answered the registration with a status below 400; or it is "PROBLEM",
  -- and the status is what it was.
  pub registration_contained :
      (rounds : ℕ) (s : State) (log : List Event)
      → (r : Option State) × ((do_registration_request w c attempts rs rounds s log).0 ≡ ok r)
        × Leaves s log r
  unfolding do_registration_request recover send_registration deliver generate_uuid new_uuid pure
      ◌>>=◌
  registration_contained rounds s log = (_, refl, state_after-Leaves s log _ _ rounds _ refl)

  -- A registration with retries is one attempt, whatever comes of it and however much time there is.
  pub register_with_retry-once :
      (more rounds : ℕ) (s : State) (log : List Event)
      → register_with_retry w c attempts rs more rounds s log
        ≡ do_registration_request w c attempts rs rounds s log
  unfolding register_with_retry
  register_with_retry-once more rounds s log =
      let (r, e, h) = registration_contained rounds s log in
      let m = λ (s : State). do_registration_request w c attempts rs rounds s in
      let whole : m s log ≡ (ok r, (m s log).1) = ap (λ z. (z, (m s log).1)) e in
      once more m w c attempts rs s log (m s log).1 r whole ∙ sym whole
