-- ===== src/Http/Action.antt =====
-- Results, and actions over the list of events.
use qubership_opensearch.Prelude.{
  ◌⊎◌, inl, inr, ℕ, String, Bool, true, false, Option, none, some, List, [], ◌∷◌, ◌++◌,
}
use qubership_opensearch.Http.Types.{Error, Event, slept, drew_uuid, dialled, Call, called, World}

-- Go's `(A, error)`, where the value is read only if the error is nil, or a panic on its way up.
pub data Result {ℓ} (A : Type ℓ) : Type ℓ where
  ok : A → Result A
  err : Error → Result A
  panicked : String → Result A

abbrev pub Exec {ℓ} : Type ℓ → Type ℓ
Exec A = List Event → Result A × List Event

module _ {ℓ} {A : Type ℓ} where
  unfoldable pub pure : A → Exec A
  pure a log = (ok a, log)

  -- `return err`
  unfoldable pub raise : Error → Exec A
  raise e log = (err e, log)

  -- A pure step that may fail.
  unfoldable pub lift : Error → Option A → Exec A
  lift e none log = (err e, log)
  lift e (some a) log = (ok a, log)

  -- panic(…)
  unfoldable pub panic : String → Exec A
  panic text log = (panicked text, log)

  unfoldable pub attempted : Result A → Result (A ⊎ Error)
  attempted (ok a) = ok (inl a)
  attempted (err e) = ok (inr e)
  attempted (panicked text) = panicked text

  -- A call whose error the caller looks at itself. It does not catch a panic.
  unfoldable pub attempt : Exec A → Exec (A ⊎ Error)
  unfolding attempted
  attempt m log = (attempted (m log).0, (m log).1)

module _ {ℓ κ} {A : Type ℓ} {B : Type κ} where
  abbrev pub continue : Result A → (A → Exec B) → Exec B
  continue (ok a) f log = f a log
  continue (err e) f log = (err e, log)
  continue (panicked text) f log = (panicked text, log)

  infixl 5 ◌>>=◌
  unfoldable pub ◌>>=◌ : Exec A → (A → Exec B) → Exec B
  ◌>>=◌ m f log = continue (m log).0 f (m log).1

infixl 5 ◌>>◌
abbrev pub ◌>>◌ {ℓ κ} : {A : Type ℓ} {B : Type κ} → Exec A → Exec B → Exec B
m >> n = m >>= λ _. n

-- `if err != nil { return err }`
unfoldable pub require_ok : Option Error → Exec (Unit {0})
require_ok none log = (ok tt, log)
require_ok (some e) log = (err e, log)

-- `if bad { return e }`
unfoldable pub ensure : Bool → Error → Exec (Unit {0})
ensure true e log = (ok tt, log)
ensure false e log = (err e, log)

-- time.Sleep
unfoldable pub sleep : ℕ → Exec (Unit {0})
sleep ms log = (ok tt, log ++ slept ms ∷ [])

-- common.GetUUID
unfoldable pub new_uuid : World → Exec String
new_uuid w log = (ok (w.uuid log), log ++ drew_uuid ∷ [])

unfoldable pub dial : World → String → Exec (Option String)
dial w url log = (ok (w.dial log url), log ++ dialled url ∷ [])

-- A change of a Kubernetes resource.
unfoldable pub call : World → Call → Exec (Unit {0})
unfolding require_ok
call w c log = require_ok (w.call log c) (log ++ called c ∷ [])

-- A change of the operator's own state.
unfoldable pub note : Event → Exec (Unit {0})
note e log = (ok tt, log ++ e ∷ [])

-- `defer`: the second action runs after the first, on a panic too, and its result is dropped.
unfoldable pub deferred {ℓ} : {A : Type ℓ} → Exec A → (Result A → Exec (Unit {0})) → Exec A
deferred m f log = let after = f (m log).0 (m log).1 in ((m log).0, after.1)
