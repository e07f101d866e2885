-- ===== src/Http/Poll.antt =====
-- wait.PollImmediate and wait.Poll of k8s.io/apimachinery, as their documentation describes them: the
-- condition is tried until it says that it is done or fails, or until the time is over. The time is
-- a number of attempts, one and the argument: Poll differs only in a wait before the first one.
use qubership_opensearch.Prelude.{ℕ, zero, suc, Bool, true, false, Option, none, if◌then◌else◌}
use qubership_opensearch.Json.{Json}
use qubership_opensearch.Http.Types.{Event, message}
use qubership_opensearch.Http.Action.{Exec, pure, raise, ◌>>=◌}
use qubership_opensearch.Http.Trace.{Adds, Adds-pure, Adds-raise, Adds-if, Adds-bind}
use qubership_opensearch.Http.Starts.{Starts, Starts-bind}
use qubership_opensearch.Http.Automaton.{Moves, Moves-pure, Moves-raise, Moves-bind}

-- wait.PollImmediate: a first attempt, and as many more as there is time for. The body of the request
-- is a reader, which the first attempt reads to its end, as it is taken to do also where no connection
-- is made: the others have none.
unfoldable pub poll_immediate : ℕ → (Option Json → Exec Bool) → Option Json → Exec (Unit {0})
poll_immediate zero condition payload = do
  done ← condition payload
  if done then pure tt else raise (message "timed out waiting for the condition")
poll_immediate (suc more) condition payload = do
  done ← condition payload
  if done then pure tt else poll_immediate more condition none

module _ {P : Event → Type 0} where
  pub Adds-poll_immediate :
      (more : ℕ) (condition : Option Json → Exec Bool) (payload : Option Json)
      → ((payload : Option Json) → Adds P (condition payload))
      → Adds P (poll_immediate more condition payload)
  unfolding poll_immediate
  Adds-poll_immediate zero condition payload h =
      Adds-bind _ _ (h payload) λ done. Adds-if done _ _ (Adds-pure _) (Adds-raise _)
  Adds-poll_immediate (suc more) condition payload h =
      Adds-bind _ _ (h payload)
        λ done. Adds-if done _ _ (Adds-pure _) (Adds-poll_immediate more condition none h)

  Adds-poll_again :
      (more : ℕ) (condition : Option Json → Exec Bool)
      → Adds P (condition none)
      → Adds P (poll_immediate more condition none)
  unfolding poll_immediate
  Adds-poll_again zero condition h =
      Adds-bind _ _ h λ done. Adds-if done _ _ (Adds-pure _) (Adds-raise _)
  Adds-poll_again (suc more) condition h =
      Adds-bind _ _ h λ done. Adds-if done _ _ (Adds-pure _) (Adds-poll_again more condition h)

  -- A poll starts with what its condition starts with. The later attempts have no payload.
  pub Starts-poll_immediate :
      {e : Event} (more : ℕ) (condition : Option Json → Exec Bool) (payload : Option Json)
      → Starts e P (condition payload)
      → Adds P (condition none)
      → Starts e P (poll_immediate more condition payload)
  unfolding poll_immediate
  Starts-poll_immediate zero condition payload first later =
      Starts-bind _ _ first λ done. Adds-if done _ _ (Adds-pure _) (Adds-raise _)
  Starts-poll_immediate (suc more) condition payload first later =
      Starts-bind _ _ first
        λ done. Adds-if done _ _ (Adds-pure _) (Adds-poll_again more condition later)

module _ {S : Type 0} (step : Event → S → Option S) where
  if-Moves :
      {s t : S} (done : Bool) (m n : Exec (Unit {0}))
      → Moves step t (λ _. t) m
      → Moves step s (λ _. t) n
      → Moves step (if done then t else s) (λ _. t) (if done then m else n)
  if-Moves true m n hm hn = hm
  if-Moves false m n hm hn = hn

  -- A poll ends in the state in which its condition says that it is done.
  pub Moves-poll_immediate :
      {s t : S} (more : ℕ) (condition : Option Json → Exec Bool) (payload : Option Json)
      → ((payload : Option Json) → Moves step s (λ done. if done then t else s) (condition payload))
      → Moves step s (λ _. t) (poll_immediate more condition payload)
  unfolding poll_immediate
  Moves-poll_immediate {s} {t} zero condition payload h =
      Moves-bind step _ _ (h payload)
        λ done. if-Moves {s = s} done _ _ (Moves-pure step {q = λ _. t} tt) (Moves-raise step _ _)
  Moves-poll_immediate {s} {t} (suc more) condition payload h =
      Moves-bind step _ _ (h payload) λ done.
        if-Moves {s = s} done _ _ (Moves-pure step {q = λ _. t} tt)
          (Moves-poll_immediate more condition none h)
