-- ===== src/DisasterRecovery/Watcher.antt =====
-- The goroutines of controllers/replication_watcher.go beside Configure of
-- controllers/disaster_recovery_reconciler.go, as interleavings. They share the state of the watcher
-- and its lock. The controller runs one reconciliation at a time, so there is one reconciler; each
-- effective `start` adds a goroutine that runs `watch`.
pub mod Invariant
pub mod Leak
use qubership_opensearch.Prelude.{ℕ, Bool, true, false, ◌≡◌, List, [], ◌∷◌, ◌++◌}

-- Where a run of `watch` stands.
pub data Pc : Type 0 where
  top : Pc  -- about to test the state
  fetched : Pc  -- the resource is fetched, or cannot be
  waiting : Pc  -- about to lock, in restartReplicationOnFailure
  holding : Pc  -- holds the lock: checks the replication and restarts it
  released : Pc  -- has unlocked, and is about to test the state again
  sleeping : Pc
  exited : Pc

-- Where the reconciler stands.
pub data Phase : Type 0 where
  idle : Phase  -- outside the part of Configure that switches over
  pausing : Phase  -- has paused the watcher, and is about to lock
  switching : Phase  -- holds the lock

pub record System : Type 0 where
  pub running : Bool  -- `*rw.state == runningState`
  pub locked : Bool
  pub phase : Phase
  pub loops : List Pc

-- NewReplicationWatcher
unfoldable pub init : System
init = record { running = false; locked = false; phase = idle; loops = [] }

-- One step of a run of `watch`, with the lock before and after it.
pub data LoopStep (running : Bool) : Bool → Pc → Bool → Pc → Type 0 where
  stop : {l : Bool} → running ≡ false → LoopStep running l top l exited
  fetch : {l : Bool} → running ≡ true → LoopStep running l top l fetched
  -- the modes are "standby" and the status is "done"
  check : {l : Bool} → LoopStep running l fetched l waiting
  skip : {l : Bool} → LoopStep running l fetched l sleeping
  lock : LoopStep running false waiting true holding
  unlock : {l : Bool} → LoopStep running l holding false released
  stop_after : {l : Bool} → running ≡ false → LoopStep running l released l exited
  go_on : {l : Bool} → running ≡ true → LoopStep running l released l sleeping
  wake : {l : Bool} → LoopStep running l sleeping l top

-- `start`: nothing if the watcher is running, else a new goroutine.
unfoldable pub start : System → System
start s = elim s.running [
  | true ↦ s
  | false ↦ record s { running = true; loops = s.loops ++ top ∷ [] }
]

unfoldable pub pause : System → System
pause s = record s { running = false }

unfoldable pub finish : Bool → System → System
finish true s = start s
finish false s = pause s

pub data Step (s : System) : System → Type 0 where
  move :
      (before after : List Pc) {p q : Pc} {l : Bool}
      → s.loops ≡ before ++ p ∷ after
      → LoopStep s.running s.locked p l q
      → Step s (record s { locked = l; loops = before ++ q ∷ after })
  -- Configure with nothing to switch over: only the watcher is started or paused
  configure : (enabled : Bool) → s.phase ≡ idle → Step s (finish enabled s)
  -- Configure with a switchover: pause, lock, work, start or pause, unlock
  begin : s.phase ≡ idle → Step s (record (pause s) { phase = pausing })
  acquire :
      s.phase ≡ pausing → s.locked ≡ false → Step s (record s { locked = true; phase = switching })
  conclude :
      (enabled : Bool)
      → s.phase ≡ switching
      → Step s (record (finish enabled s) { locked = false; phase = idle })
  -- an early return, which unlocks and leaves the watcher paused
  abandon : s.phase ≡ switching → Step s (record s { locked = false; phase = idle })

pub data Reach : System → Type 0 where
  here : Reach init
  next : {s t : System} → Reach s → Step s t → Reach t
