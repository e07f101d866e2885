-- ===== src/SlowLog/Settings.antt =====
-- A stop that has returned has removed the settings, and no watcher sets them again.
use qubership_opensearch.Prelude.{
  ℕ, ◌+◌, ◌≤◌, Bool, true, false, ◌≡◌, ◌≢◌, refl, ap, ◌∙◌, Option, none, some, List, [], ◌∷◌, ◌++◌,
  arith,
}
use qubership_opensearch.SlowLog.{
  Params, Pc, waiting, top, adding, sleeping, Loop, Control, idle, awaiting, removing, System, init,
  resume, LoopStep, lock, exit, test, add, add_failed, wake, Step, move, skip_stop, begin_stop,
  acquire, remove, remove_failed, Reach, here, next,
}

abbrev pub is_holding : Pc → ℕ
is_holding top = 1
is_holding adding = 1
is_holding sleeping = 1
is_holding _ = 0

abbrev pub holders : List Loop → ℕ
holders [] = 0
holders (x ∷ xs) = is_holding x.pc + holders xs

abbrev pub is_adding : Pc → ℕ
is_adding adding = 1
is_adding _ = 0

abbrev pub adders : List Loop → ℕ
adders [] = 0
adders (x ∷ xs) = is_adding x.pc + adders xs

abbrev pub of_control : Control → ℕ
of_control (removing goal) = 1
of_control _ = 0

abbrev pub of_lock : Bool → ℕ
of_lock true = 1
of_lock false = 0

abbrev pub IsOwned : System → Type 0
IsOwned s = holders s.loops + of_control s.control ≡ of_lock s.locked

-- Behind a stop no watcher is about to send settings, and they are removed, unless the removal failed.
abbrev pub IsRemoved : System → Type 0
IsRemoved s =
    s.running ≡ false
    → s.control ≡ idle
    → (s.unremoved ≡ false → s.applied ≡ none) × (adders s.loops ≡ 0)

holders-append : (xs ys : List Loop) → holders (xs ++ ys) ≡ holders xs + holders ys
holders-append [] ys = omega arith
holders-append (x ∷ xs) ys = omega (arith, holders-append xs ys)

adders-append : (xs ys : List Loop) → adders (xs ++ ys) ≡ adders xs + adders ys
adders-append [] ys = omega arith
adders-append (x ∷ xs) ys = omega (arith, adders-append xs ys)

is_adding-le : (c : Pc) → is_adding c ≤ is_holding c
is_adding-le c = ground arith

adders-le : (xs : List Loop) → adders xs ≤ holders xs
adders-le [] = omega arith
adders-le (x ∷ xs) = omega (arith, is_adding-le x.pc, adders-le xs)

of_lock-le : (l : Bool) → of_lock l ≤ 1
of_lock-le l = ground arith

LoopStep-IsOwned :
    {r : Bool} {p : Params} {l m : Bool} {c d : Pc} {a b : Option Params}
    → LoopStep r p l c a m d b
    → (n : ℕ) → is_holding c + n ≡ of_lock l
    → is_holding d + n ≡ of_lock m
LoopStep-IsOwned lock n h = omega arith
LoopStep-IsOwned (exit {l} e) n h = omega (arith, of_lock-le l)
LoopStep-IsOwned (test e) n h = h
LoopStep-IsOwned add n h = h
LoopStep-IsOwned add_failed n h = h
LoopStep-IsOwned wake n h = h

resume-IsOwned :
    (goal : Option Params) (s : System)
    → holders s.loops ≡ of_lock s.locked
    → IsOwned (resume goal s)
unfolding resume
resume-IsOwned none s h = omega arith
resume-IsOwned (some p) s h =
    omega (arith, holders-append s.loops (record { params = p; pc = waiting } ∷ []))

Step-IsOwned : {s t : System} → Step s t → IsOwned s → IsOwned t
Step-IsOwned {s} (move before after {p} {c} {d} e st) h = omega (
  arith,
  LoopStep-IsOwned st (holders before + holders after + of_control s.control),
  ap holders e,
  holders-append before (record { params = p; pc = c } ∷ after),
  holders-append before (record { params = p; pc = d } ∷ after),
)
Step-IsOwned {s} (skip_stop goal e off) h = resume-IsOwned goal s (omega (arith, ap of_control e))
Step-IsOwned {s} (begin_stop goal e on) h = omega (arith, ap of_control e)
Step-IsOwned {s} (acquire goal e free) h = omega (arith, ap of_control e, ap of_lock free)
Step-IsOwned {s} (remove goal e) h =
    resume-IsOwned goal (record s { locked = false; applied = none; unremoved = false })
      (omega (arith, ap of_control e, of_lock-le s.locked))
Step-IsOwned {s} (remove_failed goal e) h =
    resume-IsOwned goal (record s { locked = false; unremoved = true })
      (omega (arith, ap of_control e, of_lock-le s.locked))

-- In every reachable state the lock has exactly one holder if it is taken and none if it is free.
pub slow_log-IsOwned : {s : System} → Reach s → IsOwned s
unfolding init
slow_log-IsOwned (here earlier) = refl
slow_log-IsOwned (next r st) = Step-IsOwned st (slow_log-IsOwned r)

-- What a step of a stopped watcher can do.
LoopStep-IsRemoved :
    {r : Bool} {p : Params} {l m : Bool} {c d : Pc} {a b : Option Params}
    → LoopStep r p l c a m d b
    → r ≡ false
    → is_adding c ≡ 0
    → (b ≡ a) × (is_adding d ≡ 0)
LoopStep-IsRemoved lock off z = (refl, refl)
LoopStep-IsRemoved (exit e) off z = (refl, refl)
LoopStep-IsRemoved (test e) off z = absurd (cc (e, off))
LoopStep-IsRemoved add off z = absurd (omega (arith, z))
LoopStep-IsRemoved add_failed off z = absurd (omega (arith, z))
LoopStep-IsRemoved wake off z = (refl, refl)

resume-IsRemoved :
    (goal : Option Params) (s : System)
    → (s.unremoved ≡ false → s.applied ≡ none)
    → adders s.loops ≡ 0
    → IsRemoved (resume goal s)
unfolding resume
resume-IsRemoved none s h z off e = (h, z)
resume-IsRemoved (some p) s h z off e = absurd (cc off)

-- While the reconciler has the lock no watcher is about to send settings.
stopped_adders :
    (s : System) (goal : Option Params) → s.control ≡ removing goal → IsOwned s → adders s.loops ≡ 0
stopped_adders s goal e own =
    omega (arith, ap of_control e, own, of_lock-le s.locked, adders-le s.loops)

Step-IsRemoved : {s t : System} → Step s t → IsOwned s → IsRemoved s → IsRemoved t
Step-IsRemoved {s} (move before after {p} {c} {d} e st) own h = λ off calm.
    let (gone, none_adds) = h off calm in
    let counted = adders-append before (record { params = p; pc = c } ∷ after) in
    let (kept, calm') = LoopStep-IsRemoved st off (omega (arith, ap adders e, counted)) in
    (
      λ removed. kept ∙ gone removed,
      omega (
        arith,
        ap adders e,
        counted,
        adders-append before (record { params = p; pc = d } ∷ after),
      ),
    )
Step-IsRemoved {s} (skip_stop goal e off) own h =
    let (gone, none_adds) = h off e in resume-IsRemoved goal s gone none_adds
Step-IsRemoved {s} (begin_stop goal e on) own h = λ off calm. absurd (awaiting-ne goal calm)
  where
    awaiting-ne : (goal : Option Params) → awaiting goal ≢ idle
    awaiting-ne goal same = cc same
Step-IsRemoved {s} (acquire goal e free) own h = λ off calm. absurd (removing-ne goal calm)
  where
    removing-ne : (goal : Option Params) → removing goal ≢ idle
    removing-ne goal same = cc same
Step-IsRemoved {s} (remove goal e) own h =
    resume-IsRemoved goal (record s { locked = false; applied = none; unremoved = false })
      (λ removed. refl) (stopped_adders s goal e own)
Step-IsRemoved {s} (remove_failed goal e) own h =
    resume-IsRemoved goal (record s { locked = false; unremoved = true })
      (λ removed. absurd (cc removed)) (stopped_adders s goal e own)

-- Whenever the watcher is stopped and no `start` or `stop` is under way, no goroutine is about to send
-- settings; and the indices have none, if the last removal has succeeded, or if there was no removal yet
-- and they had none when the operator started.
pub slow_log-IsRemoved : {s : System} → Reach s → IsRemoved s
unfolding init
slow_log-IsRemoved (here none) off calm = (λ removed. refl, refl)
slow_log-IsRemoved (here (some p)) off calm = (λ removed. absurd (cc removed), refl)
slow_log-IsRemoved (next r st) off calm =
    Step-IsRemoved st (slow_log-IsOwned r) (slow_log-IsRemoved r) off calm
