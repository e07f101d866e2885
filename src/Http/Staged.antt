-- ===== src/Http/Staged.antt =====
-- Actions with a last stage: what happens before it is only of one sort.
use qubership_opensearch.Prelude.{
  ◌≡◌, sym, ◌∙◌, ap, subst, ◌⊎◌, inl, inr, List, [], ◌++◌, append-nil, append_assoc, All,
  All-append,
}
use qubership_opensearch.Http.Types.{Event}
use qubership_opensearch.Http.Action.{Exec, Result, ok, err, panicked, continue, ◌>>=◌}
use qubership_opensearch.Http.Trace.{Adds}

abbrev pub IsFailure : {A : Type 0} → Result A → Type 0
IsFailure (ok a) = ⊥
IsFailure (err e) = Unit
IsFailure (panicked text) = Unit

-- `m` adds events with `P`, and then it has failed, or goes on as `last`.
abbrev pub GoesOn :
    {A : Type 0} → (Event → Type 0) → Exec A → List Event → Result A × List Event → Type 0
GoesOn P last log (r, end) =
    (new : List Event) × All P new
    × ((IsFailure r × (end ≡ log ++ new)) ⊎ ((r, end) ≡ last (log ++ new)))

pub record Staged {A : Type 0} (P : Event → Type 0) (last m : Exec A) : Type 0 where
  pub at : (log : List Event) → GoesOn P last log (m log)

module _ {P : Event → Type 0} {A : Type 0} (last : Exec A) where
  pub Staged-last : Staged P last last
  Staged-last = record { at = λ log. ([], tt, inr (ap last (sym (append-nil log)))) }

  joined :
      (log new : List Event) (z : Result A × List Event)
      → All P new
      → GoesOn P last (log ++ new) z
      → GoesOn P last log z
  joined log new (r, end) h (more, hm, inl (bad, same)) =
      (new ++ more, All-append P new more h hm, inl (bad, same ∙ append_assoc log new more))
  joined log new (r, end) h (more, hm, inr same) =
      (new ++ more, All-append P new more h hm, inr (same ∙ ap last (append_assoc log new more)))

  pub Staged-bind :
      {B : Type 0} (m : Exec B) (f : B → Exec A)
      → Adds P m
      → ((b : B) → Staged P last (f b))
      → Staged P last (m >>= f)
  unfolding ◌>>=◌
  Staged-bind {B} m f hm hf = record {
    at = λ log. let (new, same, h) = hm.at log in go (m log).0 (m log).1 log new same h;
  }
    where
      go :
          (r : Result B) (log' log new : List Event)
          → log' ≡ log ++ new
          → All P new
          → GoesOn P last log (continue r f log')
      go (ok b) log' log new same h =
          joined log new (f b log') h
            (subst (λ (l : List Event). GoesOn P last l (f b log')) same ((hf b).at log'))
      go (err e) log' log new same h = (new, h, inl (tt, same))
      go (panicked text) log' log new same h = (new, h, inl (tt, same))
