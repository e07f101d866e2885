-- ===== src/Adapter/Background/Contract.antt =====
-- What the comments of common/background.go promise of the executor, as a service without a
-- goroutine, a mutex or a channel, and the executor as an implementation of it.
use qubership_opensearch.Prelude.{
  ◌⊎◌, inl, inr, Bool, true, false, ◌≡◌, refl, sym, Option, none, some, List, [], ◌∷◌, ◌++◌,
  append_assoc,
}
use qubership_opensearch.Adapter.Background.{
  Executor, Step, enter, refuse, send, shutdown, receive, finish, leave, Reach,
}
use qubership_opensearch.Adapter.Background.Order.{in_progress, executor-IsFifo}

-- The works that were accepted and are not finished, and those that are.
pub record Service (A : Type 0) : Type 0 where
  pub pending : List A
  pub finished : List A
  pub accepting : Bool

pub data ServiceStep {A : Type 0} (s : Service A) : Service A → Type 0 where
  accept :
      (work : A)
      → s.accepting ≡ true
      → ServiceStep s (record s { pending = s.pending ++ work ∷ [] })
  -- the oldest work is the next one
  complete :
      (work : A) (rest : List A)
      → s.pending ≡ work ∷ rest
      → ServiceStep s (record s { pending = rest; finished = s.finished ++ work ∷ [] })
  close : s.accepting ≡ true → ServiceStep s (record s { accepting = false })

-- What is seen of the executor: the work that is being run is not finished.
abbrev pub service_of : {A : Type 0} → Executor A → Service A
service_of s = record {
  pending = in_progress s.worker ++ s.queue;
  finished = s.ran;
  accepting = s.active;
}

module _ {A : Type 0} where
  -- A caller that is about to send has found the executor active, and holds the mutex since.
  sending_open :
      (active : Bool) (submitting : Option A) (work : A)
      → (active ≡ false → submitting ≡ none)
      → submitting ≡ some work
      → active ≡ true
  sending_open true submitting work closed mine = refl
  sending_open false submitting work closed mine = absurd (cc (mine, closed refl))

  accepted :
      (s : Service A) (more : List A) (work : A)
      → s.accepting ≡ true
      → more ≡ s.pending ++ work ∷ []
      → ServiceStep s (record s { pending = more })
  accepted s more work on same = rw same (accept work on)

  -- Whatever the goroutine, the callers of Submit and a caller of Shutdown do next, the service either
  -- looks as before, or has accepted a work while it was open, finished the oldest of its works, or
  -- closed.
  pub executor-refines :
      {s t : Executor A}
      → Reach s
      → Step s t
      → (service_of s ≡ service_of t) ⊎ ServiceStep (service_of s) (service_of t)
  executor-refines r (enter work free on) = inl refl
  executor-refines r (refuse work free off) = inl refl
  executor-refines {s} r (send work mine room) =
      let (order, bound, closed) = executor-IsFifo r in
      inr (
        accepted (service_of s) _ work (sending_open s.active s.submitting work closed mine)
          (sym (append_assoc (in_progress s.worker) s.queue (work ∷ []))))
  executor-refines r (shutdown free on) = inr (close on)
  executor-refines {s} r (receive work rest idle waiting) = inl (rw (idle, waiting) refl)
  executor-refines {s} r (finish work busy) = inr (complete work s.queue (rw busy refl))
  executor-refines r (leave idle empty off) = inl (rw idle refl)
