-- ===== src/SlowLog/Stale.antt =====
-- What a start that follows another one too closely may leave.
use qubership_opensearch.Prelude.{◌≡◌, refl, true, false, none, some, [], ◌∷◌}
use qubership_opensearch.SlowLog.{
  Params, waiting, sleeping, idle, System, init, resume, lock, test, add, move, skip_stop,
  begin_stop, acquire, remove, Reach, here, next,
}

-- The second of two starts, whose stop took the lock before the first goroutine did.
abbrev restarted : Params → Params → System
restarted old new = record {
  running = true;
  locked = true;
  control = idle;
  loops = record { params = old; pc = sleeping } ∷ record { params = new; pc = waiting } ∷ [];
  applied = some old;
  unremoved = false;
}

-- A start with new parameters may come to run before the goroutine of the start before it has the
-- lock: then the settings of the old parameters are in force, and the goroutine with the new ones
-- waits for the lock.
pub stale_settings :
    (old new : Params)
    → (s : System) × Reach s
      × (s.running ≡ true)
      × (s.applied ≡ some old)
      × (s.loops
          ≡ record { params = old; pc = sleeping } ∷ record { params = new; pc = waiting } ∷ [])
unfolding init resume
stale_settings old new = (
  restarted old new,
  next
      (next
        (next
          (next
            (next
              (next (next (here none) (skip_stop (some old) refl refl))
                (begin_stop (some new) refl refl))
              (acquire (some new) refl refl))
            (remove (some new) refl))
          (move [] (record { params = new; pc = waiting } ∷ []) refl lock))
        (move [] (record { params = new; pc = waiting } ∷ []) refl (test refl)))
      (move [] (record { params = new; pc = waiting } ∷ []) refl add),
  refl,
  refl,
  refl,
)
