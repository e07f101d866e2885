-- ===== src/Adapter/Background.antt =====
-- opensearch-dbaas-adapter/common/background.go: the callers of Submit and Shutdown and the goroutine
-- of the executor, as interleavings over its queue, its flag and its mutex.
pub mod Order
pub mod Contract
use qubership_opensearch.Prelude.{
  ℕ, zero, suc, ◌+◌, ◌<◌, Bool, true, false, ◌≡◌, Option, none, some, List, [], ◌∷◌, ◌++◌, length,
}

abbrev pub capacity : ℕ
capacity = 5

-- Where the goroutine stands.
pub data Worker (A : Type 0) : Type 0 where
  receiving : Worker A
  running : A → Worker A
  returned : Worker A

-- `A` is the type of works. `sent` and `ran` keep the works that were sent to the queue, and those that
-- have been run, in order.
pub record Executor (A : Type 0) : Type 0 where
  pub queue : List A
  pub active : Bool
  pub submitting : Option A  -- the work of the caller that holds the mutex and is about to send
  pub worker : Worker A
  pub sent : List A
  pub ran : List A

-- NewBackgroundExecutor
unfoldable pub new_executor : {A : Type 0} → Executor A
new_executor = record {
  queue = [];
  active = true;
  submitting = none;
  worker = receiving;
  sent = [];
  ran = [];
}

pub data Step {A : Type 0} (s : Executor A) : Executor A → Type 0 where
  -- Submit has the mutex and has found the executor active
  enter :
      (work : A)
      → s.submitting ≡ none
      → s.active ≡ true
      → Step s (record s { submitting = some work })
  -- Submit drops the work
  refuse : (work : A) → s.submitting ≡ none → s.active ≡ false → Step s s
  -- a send waits while the queue is full
  send :
      (work : A)
      → s.submitting ≡ some work
      → length s.queue < capacity
      → Step s
          (record s { queue = s.queue ++ work ∷ []; submitting = none; sent = s.sent ++ work ∷ [] })
  shutdown : s.submitting ≡ none → s.active ≡ true → Step s (record s { active = false })
  receive :
      (work : A) (rest : List A)
      → s.worker ≡ receiving
      → s.queue ≡ work ∷ rest
      → Step s (record s { worker = running work; queue = rest })
  finish :
      (work : A)
      → s.worker ≡ running work
      → Step s (record s { worker = receiving; ran = s.ran ++ work ∷ [] })
  -- the channel is closed, and empty
  leave :
      s.worker ≡ receiving
      → s.queue ≡ []
      → s.active ≡ false
      → Step s (record s { worker = returned })

pub data Reach {A : Type 0} : Executor A → Type 0 where
  here : Reach new_executor
  next : {s t : Executor A} → Reach s → Step s t → Reach t
