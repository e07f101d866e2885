-- ===== src/DisasterRecovery/Watcher/Invariant.antt =====
-- The lock keeps the restarts of the watchers and the switchovers of the reconciler apart.
use qubership_opensearch.Prelude.{
  ℕ, ◌+◌, ◌≤◌, Bool, true, false, ◌≡◌, ◌≢◌, refl, ap, All, Bool-cases, inl, inr, List, [], ◌∷◌,
  ◌++◌, arith,
}
use qubership_opensearch.DisasterRecovery.Watcher.{
  Pc, top, holding, Phase, switching, System, init, LoopStep, stop, fetch, check, skip, lock,
  unlock, stop_after, go_on, wake, start, pause, finish, Step, move, configure, begin, acquire,
  conclude, abandon, Reach, here, next,
}

abbrev pub is_holding : Pc → ℕ
is_holding holding = 1
is_holding _ = 0

abbrev pub holders : List Pc → ℕ
holders [] = 0
holders (p ∷ ps) = is_holding p + holders ps

abbrev pub of_phase : Phase → ℕ
of_phase switching = 1
of_phase _ = 0

abbrev pub of_lock : Bool → ℕ
of_lock true = 1
of_lock false = 0

-- One holder if the lock is taken, and none else.
abbrev pub IsOwned : System → Type 0
IsOwned s = holders s.loops + of_phase s.phase ≡ of_lock s.locked

holders-append : (ps qs : List Pc) → holders (ps ++ qs) ≡ holders ps + holders qs
holders-append [] qs = omega arith
holders-append (p ∷ ps) qs = omega (arith, holders-append ps qs)

of_lock-le : (l : Bool) → of_lock l ≤ 1
of_lock-le l = ground arith

LoopStep-holding :
    {r l l' : Bool} {p q : Pc}
    → LoopStep r l p l' q
    → (n : ℕ) → is_holding p + n ≡ of_lock l
    → is_holding q + n ≡ of_lock l'
LoopStep-holding (stop e) n h = h
LoopStep-holding (fetch e) n h = h
LoopStep-holding check n h = h
LoopStep-holding skip n h = h
LoopStep-holding lock n h = omega arith
LoopStep-holding (unlock {l}) n h = omega (arith, of_lock-le l)
LoopStep-holding (stop_after e) n h = h
LoopStep-holding (go_on e) n h = h
LoopStep-holding wake n h = h

holders-finish : (enabled : Bool) (s : System) → holders (finish enabled s).loops ≡ holders s.loops
unfolding finish start pause
holders-finish false s = refl
holders-finish true s = elim (Bool-cases s.running) [
  | inl on ↦ rw (on, start)
  | inr off ↦ rw (off, start) (omega (arith, holders-append s.loops (top ∷ [])))
]

finish-keeps :
    (enabled : Bool) (s : System)
    → ((finish enabled s).phase ≡ s.phase) × ((finish enabled s).locked ≡ s.locked)
unfolding finish start pause
finish-keeps enabled s = (ground arith, ground arith)

Step-IsOwned : {s t : System} → Step s t → IsOwned s → IsOwned t
unfolding pause
Step-IsOwned {s} (move before after {p} {q} e st) h = omega (
  arith,
  LoopStep-holding st (holders before + holders after + of_phase s.phase),
  ap holders e,
  holders-append before (p ∷ after),
  holders-append before (q ∷ after),
)
Step-IsOwned {s} (configure enabled e) h = omega (
  arith,
  holders-finish enabled s,
  ap of_phase (finish-keeps enabled s).0,
  ap of_lock (finish-keeps enabled s).1,
)
Step-IsOwned {s} (begin e) h = omega (arith, ap of_phase e)
Step-IsOwned {s} (acquire e free) h = omega (arith, ap of_phase e, ap of_lock free)
Step-IsOwned {s} (conclude enabled e) h =
    omega (arith, holders-finish enabled s, ap of_phase e, of_lock-le s.locked)
Step-IsOwned {s} (abandon e) h = omega (arith, ap of_phase e, of_lock-le s.locked)

-- In every reachable state the lock has exactly one holder if it is taken and none if it is free:
-- one watcher that is inside its check and restart, or the reconciler in its switchover.
pub Reach-IsOwned : {s : System} → Reach s → IsOwned s
unfolding init
Reach-IsOwned here = refl
Reach-IsOwned (next r st) = Step-IsOwned st (Reach-IsOwned r)

no_holder : (ps : List Pc) → holders ps ≡ 0 → All (λ p. p ≢ holding) ps
no_holder [] h = tt
no_holder (p ∷ ps) h = (not_holding p (omega arith), no_holder ps (omega arith))
  where
    not_holding : (p : Pc) → is_holding p ≡ 0 → p ≢ holding
    not_holding p z e = absurd (omega (arith, ap is_holding e))

-- While the reconciler switches over, no watcher is checking or restarting the replication.
pub switching_alone : {s : System} → Reach s → s.phase ≡ switching → All (λ p. p ≢ holding) s.loops
switching_alone {s} r e =
    no_holder s.loops (omega (arith, Reach-IsOwned r, ap of_phase e, of_lock-le s.locked))
