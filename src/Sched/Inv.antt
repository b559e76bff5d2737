-- ===== src/Sched/Inv.antt =====
-- The invariant of the run queue, the wait queue and the states, and the steps that keep it.
use yu_noob_kernel.Base.{occurs, occurs-append, ℕ, ◌≤◌, ◌≡◌, arith, List, [], ◌∷◌, some}
use yu_noob_kernel.Sched.{
  Kernel, ProcState, idling, runnable, running, sleeping, idle, state_of, make_runnable,
}

abbrev pub one_if_runnable : ProcState → ℕ
one_if_runnable runnable = 1
one_if_runnable _ = 0

abbrev pub one_if_sleeping : ProcState → ℕ
one_if_sleeping sleeping = 1
one_if_sleeping _ = 0

-- A process is in the run queue once if it is runnable and not at all otherwise; the processes of
-- the wait queue are asleep and stand in it once; only the current process may be running; the idle
-- process stays what it is.
pub record IsValid (k : Kernel) : Type 0 where
  pub ready : (p : ℕ) → occurs p k.runq ≡ one_if_runnable (state_of k p)
  pub asleep : (p : ℕ) → occurs p k.waitq ≤ one_if_sleeping (state_of k p)
  pub only : (p : ℕ) → state_of k p ≡ running → k.current ≡ some p
  pub idle_off : state_of k idle ≡ idling

-- Waking the process at the head of the wait queue.
pub make_runnable-IsValid :
    (k : Kernel) (p : ℕ) (ps : List ℕ)
    → IsValid (record k { waitq = p ∷ ps })
    → IsValid (record (make_runnable k p) { waitq = ps })
unfolding make_runnable occurs
make_runnable-IsValid k p ps v = record {
  ready = λ q. ground (arith, v.ready q, v.asleep q, occurs-append q k.runq (p ∷ []));
  asleep = λ q. ground (arith, v.asleep q, v.asleep p);
  only = λ q. ground (arith, v.only q);
  idle_off = ground (arith, v.asleep p, v.idle_off);
}
