-- ===== src/DisasterRecovery/Watcher/Leak.antt =====
-- Pausing does not wait for the watcher to end: what several switchovers may leave behind.
use qubership_opensearch.Prelude.{
  ℕ, zero, suc, ◌+◌, true, false, ◌≡◌, refl, ap, subst, List, [], ◌∷◌, ◌++◌, arith,
}
use qubership_opensearch.DisasterRecovery.Watcher.{
  Pc, top, sleeping, exited, idle, System, init, fetch, skip, start, pause, finish, move, configure,
  begin, acquire, conclude, Reach, here, next,
}

abbrev pub is_live : Pc → ℕ
is_live exited = 0
is_live _ = 1

abbrev pub live : List Pc → ℕ
live [] = 0
live (p ∷ ps) = is_live p + live ps

abbrev asleep : ℕ → List Pc
asleep zero = []
asleep (suc n) = sleeping ∷ asleep n

-- A watcher that runs, with all its goroutines asleep.
abbrev resting : List Pc → System
resting loops = record { running = true; locked = false; phase = idle; loops = loops }

asleep-snoc : (n : ℕ) → asleep n ++ sleeping ∷ [] ≡ asleep (suc n)
asleep-snoc zero = refl
asleep-snoc (suc n) = ap (λ ps. sleeping ∷ ps) (asleep-snoc n)

-- A new goroutine looks at the resource, has nothing to do, and goes to sleep.
settle : (ps : List Pc) → Reach (resting (ps ++ top ∷ [])) → Reach (resting (ps ++ sleeping ∷ []))
settle ps r = next (next r (move ps [] refl (fetch refl))) (move ps [] refl skip)

-- A switchover that the sleeping goroutines do not notice.
switchover : (ps : List Pc) → Reach (resting ps) → Reach (resting (ps ++ top ∷ []))
unfolding finish start pause
switchover ps r = next (next (next r (begin refl)) (acquire refl refl)) (conclude true refl)

pile : (n : ℕ) → Reach (resting (asleep (suc n)))
unfolding init finish start
pile zero = settle [] (next here (configure true refl))
pile (suc n) =
    subst (λ ps. Reach (resting ps)) (asleep-snoc (suc n))
      (settle (asleep (suc n)) (switchover (asleep (suc n)) (pile n)))

live-asleep : (n : ℕ) → live (asleep n) ≡ n
live-asleep zero = refl
live-asleep (suc n) = omega (arith, live-asleep n)

-- For every number there is a reachable state in which that many goroutines, and one more, run
-- `watch` at once: a switchover that begins and ends while they sleep starts another one, and the
-- pause between is never seen.
pub watchers_pile_up :
    (n : ℕ) → (s : System) × Reach s × (s.running ≡ true) × (live s.loops ≡ suc n)
watchers_pile_up n = (resting (asleep (suc n)), pile n, refl, live-asleep (suc n))
