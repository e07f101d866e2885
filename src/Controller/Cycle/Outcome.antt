-- ===== src/Controller/Cycle/Outcome.antt =====
-- The condition that a cycle leaves behind.
use qubership_opensearch.Prelude.{
  ℕ, ◌⊎◌, inl, ◌≡◌, refl, String, Option, none, some, List, [], ◌∷◌, ◌++◌,
}
use qubership_opensearch.Http.{
  Event, slept, called, World, Error, Call, Result, ok, err, panicked, call, require_ok, sleep,
  deferred, set_condition, ◌>>=◌,
}
use qubership_opensearch.Opensearch.{Kube}
use qubership_opensearch.Controller.Cycle.{Parts, Instance, close_cycle, reconcile}

-- The condition that a result asks for.
abbrev pub condition_of : Result (Unit {0}) → Call
condition_of (err e) = set_condition "Failed" (some e)
condition_of _ = set_condition "Successful" none

pub record EndsWith (c : Call) (end : List Event) : Type 0 where
  pub before : List Event
  pub last : end ≡ before ++ called c ∷ []

module _ (w : World) (k : Kube) (attempts : ℕ) where
  call-last : (c : Call) (log : List Event) → (call w c log).1 ≡ log ++ called c ∷ []
  unfolding call require_ok
  call-last c log = go (w.call log c)
    where
      go : (o : Option Error) → (require_ok o (log ++ called c ∷ [])).1 ≡ log ++ called c ∷ []
      go none = refl
      go (some e) = refl

  close-last :
      (r : Result (Unit {0})) (log : List Event)
      → (close_cycle w k attempts r log).1 ≡ log ++ called (condition_of r) ∷ []
  unfolding close_cycle
  close-last (ok done) log = call-last _ log
  close-last (err e) log = call-last _ log
  close-last (panicked text) log = call-last _ log

  -- A cycle of a resource whose condition could be set to "In progress" ends with a condition that tells its
  -- outcome: "Failed" with the error that it returns, or "Successful" where it returns none. It is
  -- "Successful" too where a reconciler panics.
  pub reconcile-EndsWith :
      (i : Instance) (client : String ⊎ Error) (parts : String → Parts) (log : List Event)
      → w.call (log ++ slept 5000 ∷ []) (set_condition "In progress" none) ≡ none
      → EndsWith
          (condition_of (reconcile w k attempts (inl (some i)) client parts log).0)
          (reconcile w k attempts (inl (some i)) client parts log).1
  unfolding reconcile deferred sleep call require_ok ◌>>=◌
  reconcile-EndsWith i client parts log begun =
      rw begun (record { before = _; last = close-last _ _ })
