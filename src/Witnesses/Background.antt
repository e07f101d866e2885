-- ===== src/Witnesses/Background.antt =====
-- Runs of the background executor.
use qubership_opensearch.Prelude.{ℕ, ◌⊎◌, ◌≡◌, refl, arith, false, none, [], ◌∷◌}
use qubership_opensearch.Adapter.Background.{
  receiving, running, returned, Executor, new_executor, enter, send, shutdown, receive, finish,
  leave, Reach, here, next,
}
use qubership_opensearch.Adapter.Background.Contract.{service_of, ServiceStep, executor-refines}
use qubership_opensearch.Adapter.Background.Order.{IsFifo, executor-IsFifo, executor-finished}

-- A work was run, another one waits in the queue, and no more is taken.
abbrev closing : Executor ℕ
closing = record {
  queue = 8 ∷ [];
  active = false;
  submitting = none;
  worker = receiving;
  sent = 7 ∷ 8 ∷ [];
  ran = 7 ∷ [];
}

abbrev closed : Executor ℕ
closed = record closing { queue = []; worker = returned; ran = 7 ∷ 8 ∷ [] }

closing-Reach : Reach closing
unfolding new_executor
closing-Reach =
    next
      (next
        (next
          (next
            (next (next (next here (enter 7 refl refl)) (send 7 refl (omega arith)))
              (receive 7 [] refl refl))
            (enter 8 refl refl))
          (send 8 refl (omega arith)))
        (finish 7 refl))
      (shutdown refl refl)

closed-Reach : Reach closed
closed-Reach =
    next (next (next closing-Reach (receive 8 [] refl refl)) (finish 8 refl)) (leave refl refl refl)

executor-IsFifo_example : IsFifo closing
executor-IsFifo_example = executor-IsFifo closing-Reach

executor-finished_example :
    (closed.ran ≡ closed.sent) × (closed.active ≡ false) × (closed.submitting ≡ none)
executor-finished_example = executor-finished closed-Reach refl

executor-refines_example :
    (service_of closing ≡ service_of (record closing { worker = running 8; queue = [] }))
    ⊎ ServiceStep
        (service_of closing)
        (service_of (record closing { worker = running 8; queue = [] }))
executor-refines_example = executor-refines closing-Reach (receive 8 [] refl refl)
