-- ===== src/SlowLog.antt =====
-- controllers/slowlog_indices_watcher.go: the goroutines that run `watch` beside the reconciler, which
-- calls `start` and `stop`, as interleavings. They share the state of the watcher, its lock and the
-- settings of the indices. A request for the settings may fail, which is only logged.
pub mod Settings
pub mod Stale
use qubership_opensearch.Prelude.{
  ℕ, String, Bool, true, false, ◌≡◌, is_some, Option, none, some, List, [], ◌∷◌, ◌++◌,
}

-- The arguments of `start`.
pub record Params : Type 0 where
  pub indices_pattern : String
  pub min_seconds : ℕ

-- Where a run of `watch` stands.
pub data Pc : Type 0 where
  waiting : Pc  -- for the lock
  top : Pc  -- about to test the state, as in what follows with the lock
  adding : Pc  -- about to send the settings
  sleeping : Pc
  exited : Pc  -- has given the lock back

pub record Loop : Type 0 where
  pub params : Params
  pub pc : Pc

-- Where the reconciler stands. `start` is a stop with a run of `watch` to add.
pub data Control : Type 0 where
  idle : Control
  awaiting : Option Params → Control  -- has set the state, and waits for the lock
  removing : Option Params → Control  -- has the lock, and is about to remove the settings

pub record System : Type 0 where
  pub running : Bool  -- `*State == runningWatcherState`
  pub locked : Bool
  pub control : Control
  pub loops : List Loop
  pub applied : Option Params  -- the slow log settings that the indices have
  -- Whether the last removal failed, or, before the first one, the indices had settings at the start.
  pub unremoved : Bool

-- NewSlowLogIndicesWatcher. The indices may have settings of an earlier run of the operator.
unfoldable pub init : Option Params → System
init earlier = record {
  running = false;
  locked = false;
  control = idle;
  loops = [];
  applied = earlier;
  unremoved = is_some earlier;
}

-- The end of `start` behind its stop, or of `stop` alone.
unfoldable pub resume : Option Params → System → System
resume none s = record s { control = idle }
resume (some p) s = record s {
  running = true;
  control = idle;
  loops = s.loops ++ record { params = p; pc = waiting } ∷ [];
}

-- One step of a run of `watch`: the lock, the place and the settings before and after it.
pub data LoopStep (running : Bool) (p : Params)
    : Bool → Pc → Option Params → Bool → Pc → Option Params → Type 0 where
  lock : {a : Option Params} → LoopStep running p false waiting a true top a
  exit :
      {l : Bool} {a : Option Params} → running ≡ false → LoopStep running p l top a false exited a
  test : {l : Bool} {a : Option Params} → running ≡ true → LoopStep running p l top a l adding a
  add : {l : Bool} {a : Option Params} → LoopStep running p l adding a l sleeping (some p)
  add_failed : {l : Bool} {a : Option Params} → LoopStep running p l adding a l sleeping a
  wake : {l : Bool} {a : Option Params} → LoopStep running p l sleeping a l top a

pub data Step (s : System) : System → Type 0 where
  move :
      (before after : List Loop) {p : Params} {c d : Pc} {l : Bool} {a : Option Params}
      → s.loops ≡ before ++ record { params = p; pc = c } ∷ after
      → LoopStep s.running p s.locked c s.applied l d a
      → Step s (record s {
        locked = l;
        loops = before ++ record { params = p; pc = d } ∷ after;
        applied = a;
      })
  -- a stop of a stopped watcher does nothing more
  skip_stop : (goal : Option Params) → s.control ≡ idle → s.running ≡ false → Step s (resume goal s)
  begin_stop :
      (goal : Option Params)
      → s.control ≡ idle
      → s.running ≡ true
      → Step s (record s { running = false; control = awaiting goal })
  acquire :
      (goal : Option Params)
      → s.control ≡ awaiting goal
      → s.locked ≡ false
      → Step s (record s { locked = true; control = removing goal })
  remove :
      (goal : Option Params)
      → s.control ≡ removing goal
      → Step s (resume goal (record s { locked = false; applied = none; unremoved = false }))
  remove_failed :
      (goal : Option Params)
      → s.control ≡ removing goal
      → Step s (resume goal (record s { locked = false; unremoved = true }))

pub data Reach : System → Type 0 where
  here : (earlier : Option Params) → Reach (init earlier)
  next : {s t : System} → Reach s → Step s t → Reach t
