-- ===== src/Opensearch/Credentials/Order.antt =====
-- The order of the requests that change the administrator.
use qubership_opensearch.Prelude.{
  ℕ, ◌⊎◌, inl, inr, ◌≡◌, refl, String, true, false, ◌||◌, ◌==◌, eq_iff, eqb, some, List, [], ◌∷◌,
  ◌++◌, Bool-cases, arith,
}
use qubership_opensearch.Http.{
  Method, Request, Event, sent, answered, Body, World, Credentials, request_of, send_request,
  send_basic_request, require_ok, pure, raise, ◌>>=◌,
}
use qubership_opensearch.Http.Yields.{Yields, Yields-pure, Yields-bind}
use qubership_opensearch.Opensearch.{Kube}
use qubership_opensearch.Opensearch.Credentials.{
  user_path, new_user, accept, with_credentials, create_new_user, change_user, update_credentials,
}

module _ (w : World) (k : Kube) (attempts : ℕ) (url name : String) where
  abbrev IsOf : Credentials → Credentials → Type 0
  IsOf new c = (c.username ≡ new.username) × (c.password ≡ new.password)

  -- The client that an update of the credentials without an error gives has the new ones.
  pub update_credentials-Yields :
      (new old : Credentials)
      → Yields
          (λ c. (c.username ≡ new.username) × (c.password ≡ new.password))
          (update_credentials w k attempts url name new old)
  unfolding update_credentials
  update_credentials-Yields new old =
      go (Bool-cases (new.username == old.username)) (Bool-cases (new.password == old.password))
    where
      go :
          ((new.username == old.username) ≡ true) ⊎ ((new.username == old.username) ≡ false)
          → ((new.password == old.password) ≡ true) ⊎ ((new.password == old.password) ≡ false)
          → Yields (IsOf new) (update_credentials w k attempts url name new old)
      go (inl u) (inl p) =
          rw (u, p)
            (Yields-pure old (
              ground (arith, eq_iff new.username old.username),
              ground (arith, eq_iff new.password old.password),
            ))
      go (inl u) (inr p) =
          rw (u, p) (Yields-bind _ _ λ _. Yields-bind _ _ λ _. Yields-pure new (refl, refl))
      go (inr u) p = rw u (Yields-bind _ _ λ _. Yields-bind _ _ λ _. Yields-pure new (refl, refl))

  abbrev pub creation : Credentials → Credentials → Request
  creation new old =
      request_of (with_credentials url old) Method.put (user_path new.username)
        (some (new_user new.password)) true

  -- Where the administrator gets another name, and the cluster does not accept the new user, nothing else
  -- is sent or changed: the old user stays, and the secret with the old credentials too.
  pub update_credentials-refused :
      (new old : Credentials) (log : List Event) (code : ℕ) (b : Body)
      → (new.username == old.username) ≡ false
      → (new.username == "" || new.password == "") ≡ false
      → w.respond log (creation new old) ≡ answered code b
      → (eqb code 200 || eqb code 201) ≡ false
      → (update_credentials w k attempts url name new old log).1
        ≡ log ++ sent (creation new old) ∷ []
  unfolding update_credentials change_user create_new_user accept send_request send_basic_request
      require_ok pure raise ◌>>=◌
  update_credentials-refused new old log code b other full given bad =
      rw (other, full, given, bad) refl
