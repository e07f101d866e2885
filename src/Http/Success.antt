-- ===== src/Http/Success.antt =====
-- What a successful action has gone through: the inversion of a sequence.
use qubership_opensearch.Prelude.{
  ◌≡◌, refl, ap, ◌≢◌, Bool, true, Option, none, some, List, arith, inl, inr,
}
use qubership_opensearch.Json.{Json}
use qubership_opensearch.Http.Types.{
  Event, Error, Body, Outcome, failed, broken, answered, unmarshal,
}
use qubership_opensearch.Http.Client.{reply_of, unmarshal_to}
use qubership_opensearch.Http.Action.{
  Exec, Result, ok, err, panicked, attempted, continue, pure, raise, lift, ensure, require_ok,
  ◌>>=◌,
}

module _ {A B : Type 0} where
  continue-ok :
      (f : A → Exec B) (r : Result A) (log : List Event) {b : B} {end : List Event}
      → continue r f log ≡ (ok b, end)
      → (a : A) × (r ≡ ok a) × (f a log ≡ (ok b, end))
  continue-ok f (ok a) log h = (a, refl, h)
  continue-ok f (err e) log h = cc
  continue-ok f (panicked text) log h = cc

  -- A sequence that succeeds has a first part that succeeds.
  pub >>=-eq-ok :
      (m : Exec A) (f : A → Exec B) (log : List Event) {b : B} {end : List Event}
      → (m >>= f) log ≡ (ok b, end)
      → (a : A) × (m log ≡ (ok a, (m log).1)) × (f a (m log).1 ≡ (ok b, end))
  unfolding ◌>>=◌
  >>=-eq-ok m f log h =
      let (a, first, rest) = continue-ok f (m log).0 (m log).1 h in
      (a, ap (λ r. (r, (m log).1)) first, rest)

module _ {A : Type 0} where
  pub pure-eq-ok :
      (a : A) (log : List Event) {b : A} {end : List Event}
      → pure a log ≡ (ok b, end)
      → (a ≡ b) × (log ≡ end)
  unfolding pure
  pure-eq-ok a log h = (cc, cc)

  pub raise-ne-ok :
      (e : Error) (log : List Event) {b : A} {end : List Event} → raise e log ≢ (ok b, end)
  unfolding raise
  raise-ne-ok e log h = cc

  pub lift-eq-ok :
      (e : Error) (o : Option A) (log : List Event) {b : A} {end : List Event}
      → lift e o log ≡ (ok b, end)
      → (o ≡ some b) × (log ≡ end)
  unfolding lift
  lift-eq-ok e none log h = cc
  lift-eq-ok e (some a) log h = (cc, cc)

pub ok-injective : {A : Type 0} {a b : A} → Path (Result A) (ok a) (ok b) → b ≡ a
ok-injective h = cc

-- What a caught result was.
pub attempted-inl : {A : Type 0} (r : Result A) {a : A} → attempted r ≡ ok (inl a) → r ≡ ok a
unfolding attempted
attempted-inl (ok b) h = cc
attempted-inl (err e) h = cc
attempted-inl (panicked text) h = cc

pub attempted-inr : {A : Type 0} (r : Result A) {e : Error} → attempted r ≡ ok (inr e) → r ≡ err e
unfolding attempted
attempted-inr (ok b) h = cc
attempted-inr (err d) h = cc
attempted-inr (panicked text) h = cc

pub ensure-eq-ok :
    (b : Bool) (e : Error) (log : List Event) {u : Unit {0}} {end : List Event}
    → ensure b e log ≡ (ok u, end)
    → (b ≡ true) × (log ≡ end)
unfolding ensure
ensure-eq-ok b e log h = ground arith

pub require_ok-eq-ok :
    (o : Option Error) (log : List Event) {u : Unit {0}} {end : List Event}
    → require_ok o log ≡ (ok u, end)
    → (o ≡ none) × (log ≡ end)
unfolding require_ok
require_ok-eq-ok o log h = ground arith

-- A body that decodes is a document.
pub unmarshal_to-eq-ok :
    {A : Type 0} (decode : Json → Option A) (b : Body) (log : List Event) {a : A} {end : List Event}
    → unmarshal_to decode b log ≡ (ok a, end)
    → (doc : Json) × (b.document ≡ some doc) × (decode doc ≡ some a) × (log ≡ end)
unfolding unmarshal_to
unmarshal_to-eq-ok {A} decode b log {a} {end} h = go b.document refl h
  where
    go :
        (o : Option Json)
        → b.document ≡ o
        → lift unmarshal (elim o [ none ↦ none | some v ↦ decode v ]) log ≡ (ok a, end)
        → (doc : Json) × (b.document ≡ some doc) × (decode doc ≡ some a) × (log ≡ end)
    go none same h = absurd (cc (lift-eq-ok {A = A} unmarshal none log h).0)
    go (some doc) same h =
        let (read, ended) = lift-eq-ok unmarshal (decode doc) log h in (doc, same, read, ended)

-- A reply without an error is an answer, with its status and its body.
pub reply_of-answered :
    (o : Outcome)
    → (reply_of o).error ≡ none
    → o ≡ answered (reply_of o).status_code (reply_of o).body
reply_of-answered (failed e) h = absurd (cc h)
reply_of-answered (broken code e) h = absurd (cc h)
reply_of-answered (answered code b) h = refl
