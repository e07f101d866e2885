-- ===== src/Adapter/Background/Order.antt =====
-- Works are run in the order in which they were sent, and all of them before the goroutine returns.
use qubership_opensearch.Prelude.{
  ◌≤◌, false, ◌≡◌, refl, ap, none, List, [], ◌∷◌, ◌++◌, append-nil, append_assoc, length,
  length-append, arith,
}
use qubership_opensearch.Adapter.Background.{
  capacity, Worker, running, returned, Executor, new_executor, Step, enter, refuse, send, shutdown,
  receive, finish, leave, Reach, here, next,
}

abbrev pub in_progress : {A : Type 0} → Worker A → List A
in_progress (running work) = work ∷ []
in_progress _ = []

-- Nothing is left: the channel is closed, and no one sends.
abbrev IsClosed : {A : Type 0} → Executor A → Type 0
IsClosed s = (s.queue ≡ []) × (s.active ≡ false)

abbrev pub IsFifo : {A : Type 0} → Executor A → Type 0
IsFifo s =
    (s.sent ≡ s.ran ++ in_progress s.worker ++ s.queue)
    × (length s.queue ≤ capacity)
    × (s.active ≡ false → s.submitting ≡ none)

module _ {A : Type 0} where
  Step-IsFifo : {s t : Executor A} → Step s t → IsFifo s → IsFifo t
  Step-IsFifo (enter work free on) (order, bound, closed) =
      (order, bound, λ off. absurd (cc (on, off)))
  Step-IsFifo (refuse work free off) h = h
  Step-IsFifo {s} (send work mine room) (order, bound, closed) = (
    cc (order, append_assoc (s.ran ++ in_progress s.worker) s.queue (work ∷ [])),
    omega (arith, length-append s.queue (work ∷ [])),
    λ off. refl,
  )
  Step-IsFifo (shutdown free on) (order, bound, closed) = (order, bound, λ off. free)
  Step-IsFifo {s} (receive work rest idle waiting) (order, bound, closed) = (
    cc (order, ap in_progress idle, waiting, append-nil s.ran, append_assoc s.ran (work ∷ []) rest),
    omega (arith, ap length waiting),
    closed,
  )
  Step-IsFifo {s} (finish work busy) (order, bound, closed) =
      (cc (order, ap in_progress busy, append-nil (s.ran ++ work ∷ [])), bound, closed)
  Step-IsFifo {s} (leave idle empty off) (order, bound, closed) =
      (cc (order, ap in_progress idle), bound, closed)

  -- In every reachable state the works that were sent are those that have been run, then the one that
  -- is being run, then the queue, in the order of the sends; the queue has at most five works; and once the
  -- channel is closed, no caller is about to send to it.
  pub executor-IsFifo : {s : Executor A} → Reach s → IsFifo s
  unfolding new_executor
  executor-IsFifo here = (refl, omega arith, λ off. refl)
  executor-IsFifo (next r st) = Step-IsFifo st (executor-IsFifo r)

  abbrev HasReturned : Executor A → Type 0
  HasReturned s = s.worker ≡ returned → IsClosed s

  Step-HasReturned : {s t : Executor A} → Step s t → IsFifo s → HasReturned s → HasReturned t
  Step-HasReturned (enter work free on) (order, bound, closed) h = h
  Step-HasReturned (refuse work free off) (order, bound, closed) h = h
  Step-HasReturned (send work mine room) (order, bound, closed) h =
      λ e. let (empty, off) = h e in absurd (cc (mine, closed off))
  Step-HasReturned (shutdown free on) (order, bound, closed) h =
      λ e. let (empty, off) = h e in (empty, refl)
  Step-HasReturned (receive work rest idle waiting) (order, bound, closed) h = λ e. absurd (cc e)
  Step-HasReturned (finish work busy) (order, bound, closed) h = λ e. absurd (cc e)
  Step-HasReturned (leave idle empty off) (order, bound, closed) h = λ e. (empty, off)

  HasReturned_lem : {s : Executor A} → Reach s → HasReturned s
  unfolding new_executor
  HasReturned_lem here e = absurd (cc e)
  HasReturned_lem (next r st) e = Step-HasReturned st (executor-IsFifo r) (HasReturned_lem r) e

  -- When the goroutine has returned, every work that was sent has been run, in order, and no caller will
  -- send another one: the executor is shut down, and no one is about to send.
  pub executor-finished :
      {s : Executor A}
      → Reach s
      → s.worker ≡ returned
      → (s.ran ≡ s.sent) × (s.active ≡ false) × (s.submitting ≡ none)
  executor-finished {s} r e =
      let (order, bound, closed) = executor-IsFifo r in
      let (empty, off) = HasReturned_lem r e in
      (cc (order, empty, ap in_progress e, append-nil s.ran), off, closed off)
