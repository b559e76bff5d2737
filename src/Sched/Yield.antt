-- ===== src/Sched/Yield.antt =====
-- What giving up the CPU does.
use yu_noob_kernel.Base.{
  occurs, occurs-append, ℕ, ◌≤◌, ◌≡◌, ◌≢◌, refl, ap, arith, true, false, not, ◌==◌, if◌then◌else◌,
  ◌&&◌, List, [], ◌∷◌, Option, none, some, Bool-cases, inl, inr, ◌⊎◌,
}
use yu_noob_kernel.Sched.{
  Kernel, ProcState, unused, idling, running, idle, state_of, requeue, context_switch_yield,
  switch_to, sched_yield, dequeue_proc, set_state, may_go_on, switch_next, yield_by,
}
use yu_noob_kernel.Sched.Inv.{IsValid, one_if_runnable, one_if_sleeping}

-- The invariant while no process is running: that of the run queue, the wait queue and the idle process.
record Between (k : Kernel) : Type 0 where
  ready : (p : ℕ) → occurs p k.runq ≡ one_if_runnable (state_of k p)
  asleep : (p : ℕ) → occurs p k.waitq ≤ one_if_sleeping (state_of k p)
  none_runs : (p : ℕ) → state_of k p ≢ running
  idle_off : state_of k idle ≡ idling

requeue-Between : (k : Kernel) (p : ℕ) → IsValid k → k.current ≡ some p → Between (requeue k p)
unfolding requeue occurs
requeue-Between k p v h = go (state_of k p) refl
  where
    go : (s : ProcState) → state_of k p ≡ s → Between (requeue k p)
    go running e =
        rw (e, requeue)
          (record {
            ready = λ q. ground (arith, v.ready q, e, occurs-append q k.runq (p ∷ []));
            asleep = λ q. ground (arith, v.asleep q, e);
            none_runs = λ q. ground (arith, v.only q, h);
            idle_off = ground (arith, v.idle_off, e);
          })
    go unused e =
        rw (e, requeue)
          (record {
            ready = v.ready;
            asleep = v.asleep;
            none_runs = λ q. ground (arith, v.only q, h, e);
            idle_off = v.idle_off;
          })
    go _ e =
        rw (e, requeue)
          (record {
            ready = v.ready;
            asleep = v.asleep;
            none_runs = λ q. ground (arith, v.only q, h, e);
            idle_off = v.idle_off;
          })

-- Who runs after a switch: the idle process, or a process that is marked as running.
abbrev pub Runs : Kernel → Type 0
Runs k = (q : ℕ) × (k.current ≡ some q) × ((q ≡ idle) ⊎ (state_of k q ≡ running))

-- The two ways through `context_switch_yield`.
context_switch_yield-nil :
    (k : Kernel) (old : ℕ)
    → k.runq ≡ []
    → context_switch_yield k old ≡ (
        if may_go_on (state_of k old) && not (old == idle)
        then record (set_state k old running) { current = some old }
        else switch_to k idle)
unfolding context_switch_yield
context_switch_yield-nil k old e =
    let d : dequeue_proc k ≡ (none, k) = unfold dequeue_proc in rw e in
    ap (λ (c : Option ℕ × Kernel). switch_next c.0 c.1 old) d

pub context_switch_yield-cons :
    (k : Kernel) (old q : ℕ) (qs : List ℕ)
    → k.runq ≡ q ∷ qs
    → context_switch_yield k old ≡ switch_to (record k { runq = qs }) q
unfolding context_switch_yield
context_switch_yield-cons k old q qs e =
    let d : dequeue_proc k ≡ (some q, record k { runq = qs }) = unfold dequeue_proc in rw e in
    ap (λ (c : Option ℕ × Kernel). switch_next c.0 c.1 old) d

next_not_idle :
    (k : Kernel) (q : ℕ) (qs : List ℕ) → Between k → k.runq ≡ q ∷ qs → (q == idle) ≡ false
unfolding occurs
next_not_idle k q qs b e = ground (arith, b.ready q, b.idle_off, ap (occurs q) e)

resumed :
    (k : Kernel) (q : ℕ) (qs : List ℕ)
    → Between k
    → k.runq ≡ q ∷ qs
    → IsValid (switch_to (record k { runq = qs }) q) × Runs (switch_to (record k { runq = qs }) q)
unfolding switch_to occurs
resumed k q qs b e = rw (next_not_idle k q qs b e) (
  record {
    ready = λ p. ground (arith, b.ready p, b.ready q, ap (occurs p) e, ap (occurs q) e);
    asleep = λ p. ground (arith, b.asleep p, b.asleep q, b.ready q, ap (occurs q) e);
    only = λ p. ground (arith, b.none_runs p);
    idle_off = ground (arith, b.idle_off, next_not_idle k q qs b e);
  },
  (q, refl, inr (ground arith)),
)

idled : (k : Kernel) → Between k → IsValid (switch_to k idle) × Runs (switch_to k idle)
unfolding switch_to
idled k b = (
  record {
    ready = b.ready;
    asleep = b.asleep;
    only = λ p h. absurd (b.none_runs p h);
    idle_off = b.idle_off;
  },
  (idle, refl, inl refl),
)

continued :
    (k : Kernel) (old : ℕ)
    → Between k
    → k.runq ≡ []
    → (may_go_on (state_of k old) && not (old == idle)) ≡ true
    → let k' = record (set_state k old running) { current = some old } in IsValid k' × Runs k'
unfolding set_state occurs
continued k old b e g = (
  record {
    ready = λ p. ground (arith, b.ready p, b.ready old, ap (occurs p) e, ap (occurs old) e, g);
    asleep = λ p. ground (arith, b.asleep p, g);
    only = λ p. ground (arith, b.none_runs p);
    idle_off = ground (arith, b.idle_off, g);
  },
  (old, refl, inr (ground arith)),
)

context_switch_yield-IsValid :
    (k : Kernel) (old : ℕ)
    → Between k
    → IsValid (context_switch_yield k old) × Runs (context_switch_yield k old)
context_switch_yield-IsValid k old b = go k.runq refl
  where
    go :
        (qs : List ℕ)
        → k.runq ≡ qs
        → IsValid (context_switch_yield k old) × Runs (context_switch_yield k old)
    go [] e =
        rw (context_switch_yield-nil k old e)
          (elim (Bool-cases (may_go_on (state_of k old) && not (old == idle))) [
            | inl g ↦ rw g (continued k old b e g)
            | inr g ↦ rw g (idled k b)
          ])
    go (q ∷ qs) e = rw (context_switch_yield-cons k old q qs e) (resumed k q qs b e)

-- `sched_yield` by any current process, whatever its state, keeps the invariant, and afterwards either
-- the idle process is current or a process that is marked as running.
pub sched_yield-IsValid :
    (k : Kernel) (p : ℕ)
    → IsValid k
    → k.current ≡ some p
    → (k' : Kernel) × (sched_yield k ≡ some k') × IsValid k' × Runs k'
unfolding sched_yield
sched_yield-IsValid k p v h =
    let b = requeue-Between k p v h in
    let (v', r) =
      context_switch_yield-IsValid (record (requeue k p) { current = none; need_resched = false }) p
        (record {
          ready = b.ready;
          asleep = b.asleep;
          none_runs = b.none_runs;
          idle_off = b.idle_off;
        }) in
    (
      context_switch_yield (record (requeue k p) { current = none; need_resched = false }) p,
      ap (λ (c : Option ℕ). yield_by c k) h,
      v',
      r,
    )
