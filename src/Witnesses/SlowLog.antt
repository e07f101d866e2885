-- ===== src/Witnesses/SlowLog.antt =====
-- Runs of the slow log watcher.
use qubership_opensearch.Prelude.{ℕ, ◌≡◌, refl, true, false, none, some, [], ◌∷◌}
use qubership_opensearch.SlowLog.{
  Params, waiting, Control, idle, System, init, resume, skip_stop, begin_stop, acquire, remove,
  Reach, here, next,
}
use qubership_opensearch.SlowLog.Settings.{adders, slow_log-IsRemoved}

abbrev slow : ℕ → Params
slow seconds = record { indices_pattern = "orders*"; min_seconds = seconds }

-- A goroutine that waits for the lock while the reconciler holds it.
abbrev stopping : System
stopping = record {
  running = false;
  locked = true;
  control = Control.removing none;
  loops = record { params = slow 5; pc = waiting } ∷ [];
  applied = none;
  unremoved = false;
}

abbrev stopped : System
stopped = record stopping { locked = false; control = idle }

stopping-Reach : Reach stopping
unfolding init resume
stopping-Reach =
    next (next (next (here none) (skip_stop (some (slow 5)) refl refl)) (begin_stop none refl refl))
      (acquire none refl refl)

stopped-Reach : Reach stopped
unfolding resume
stopped-Reach = next stopping-Reach (remove none refl)

slow_log-IsRemoved_example :
    (stopped.unremoved ≡ false → stopped.applied ≡ none) × (adders stopped.loops ≡ 0)
slow_log-IsRemoved_example = slow_log-IsRemoved stopped-Reach refl refl
