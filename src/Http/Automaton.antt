-- ===== src/Http/Automaton.antt =====
-- Actions whose events drive an automaton: a state that each event changes, or does not allow.
use qubership_opensearch.Prelude.{
  ◌≡◌, refl, sym, ◌∙◌, ap, Bool, true, false, Option, none, some, List, [], ◌∷◌, ◌++◌, append-nil,
  append_assoc, if◌then◌else◌, All,
}
use qubership_opensearch.Http.Types.{Event, Error}
use qubership_opensearch.Http.Action.{Exec, Result, ok, err, panicked, continue, pure, raise, ◌>>=◌}
use qubership_opensearch.Http.Trace.{Adds}
use qubership_opensearch.Http.Yields.{OnOk, Yields, Yields-any}

module _ {S : Type 0} (step : Event → S → Option S) where
  abbrev advance : Event → Option S → Option S
  advance e none = none
  advance e (some s) = step e s

  abbrev onward : Option S → List Event → Option S
  onward o [] = o
  onward o (e ∷ es) = onward (advance e o) es

  -- The state behind the events, if all of them were allowed.
  abbrev pub run : S → List Event → Option S
  run s es = onward (some s) es

  run-append : (o : Option S) (xs ys : List Event) → onward o (xs ++ ys) ≡ onward (onward o xs) ys
  run-append o [] ys = refl
  run-append o (e ∷ xs) ys = run-append (advance e o) xs ys

  -- An event that leaves every state as it is.
  abbrev pub IsIdle : Event → Type 0
  IsIdle e = (s : S) → step e s ≡ some s

  run-idle : (s : S) (es : List Event) → All IsIdle es → run s es ≡ some s
  run-idle s [] h = refl
  run-idle s (e ∷ es) h = rw (h.0 s) (run-idle s es h.1)

  -- The state behind a run that has returned a value is known, that behind another one is some state.
  abbrev pub Ends : {A : Type 0} → (A → S) → Result A → Option S → Type 0
  Ends q (ok a) z = z ≡ some (q a)
  Ends q _ z = (t : S) × (z ≡ some t)

  -- From the state `s` on, all events of the action are allowed.
  pub record Moves {A : Type 0} (s : S) (q : A → S) (m : Exec A) : Type 0 where
    pub at :
        (log : List Event)
        → (new : List Event) × ((m log).1 ≡ log ++ new) × Ends q (m log).0 (run s new)

  module _ {A : Type 0} {q : A → S} where
    pub Moves-pure : (a : A) → Moves (q a) q (pure a)
    unfolding pure
    Moves-pure a = record { at = λ log. ([], sym (append-nil log), refl) }

    pub Moves-raise : (s : S) (e : Error) → Moves s q (raise e)
    unfolding raise
    Moves-raise s e = record { at = λ log. ([], sym (append-nil log), (s, refl)) }

    pub Moves-if :
        {s : S} (b : Bool) (m n : Exec A)
        → Moves s q m
        → Moves s q n
        → Moves s q (if b then m else n)
    Moves-if true m n hm hn = hm
    Moves-if false m n hm hn = hn

  pub Moves-to :
      {A : Type 0} {s : S} {q r : A → S} {m : Exec A}
      → Moves s q m
      → ((a : A) → q a ≡ r a)
      → Moves s r m
  Moves-to {A} {s} {q} {r} {m} h same = record {
    at = λ log. let (new, grown, ends) = h.at log in (new, grown, go _ (m log).0 ends);
  }
    where
      go : (z : Option S) (x : Result A) → Ends q x z → Ends r x z
      go z (ok a) e = e ∙ ap some (same a)
      go z (err d) e = e
      go z (panicked text) e = e

  pub Moves-idle : {A : Type 0} (s : S) (m : Exec A) → Adds IsIdle m → Moves s (λ _. s) m
  Moves-idle {A} s m h = record {
    at = λ log. let (new, same, idle) = h.at log in (new, same, go (m log).0 (run-idle s new idle));
  }
    where
      go : {z : Option S} (r : Result A) → z ≡ some s → Ends (λ _. s) r z
      go (ok a) e = e
      go (err d) e = (s, e)
      go (panicked text) e = (s, e)

  module _ {A B : Type 0} {q : A → S} {r : B → S} where
    -- What follows may use a fact about the first value.
    pub Moves-bind_of :
        {Q : A → Type 0} {s : S} (m : Exec A) (f : A → Exec B)
        → Moves s q m
        → Yields Q m
        → ((a : A) → Q a → Moves (q a) r (f a))
        → Moves s r (m >>= f)
    unfolding ◌>>=◌
    Moves-bind_of {Q} {s} m f hm hy hf = record {
      at = λ log.
          let (new, same, h) = hm.at log in go (m log).0 (m log).1 log new same h (hy.at log);
    }
      where
        go :
            (x : Result A) (log' log new : List Event)
            → log' ≡ log ++ new
            → Ends q x (run s new)
            → OnOk Q x
            → (all : List Event) × ((continue x f log').1 ≡ log ++ all)
              × Ends r (continue x f log').0 (run s all)
        go (ok a) log' log new same h known =
            let (later, grown, ends) = (hf a known).at log' in
            (
              new ++ later,
              grown ∙ ap (λ l. l ++ later) same ∙ append_assoc log new later,
              rw (run-append (some s) new later, h) ends,
            )
        go (err e) log' log new same h known = (new, same, h)
        go (panicked text) log' log new same h known = (new, same, h)

    pub Moves-bind :
        {s : S} (m : Exec A) (f : A → Exec B)
        → Moves s q m
        → ((a : A) → Moves (q a) r (f a))
        → Moves s r (m >>= f)
    Moves-bind m f hm hf = Moves-bind_of {Q = λ _. Unit {0}} m f hm (Yields-any m) (λ a _. hf a)
