-- ===== src/Sched.antt =====
-- src/task/sched.c and src/sync/wait.c on the one CPU of the board (CPU_NUM is 1), for one wait
-- queue; a process is named by a number. Each function runs with interrupts off or under the lock of
-- its queue. `context_switch`, which exchanges the register contents, is not modelled: the call is the
-- change of `current`.
pub mod Inv
pub mod Yield
pub mod Wakeup
pub mod Chosen
pub mod Address
pub mod Fair
mod Tests
use yu_noob_kernel.Base.{
  ℕ, zero, suc, ◌+◌, Bool, true, false, not, leb, ltb, ◌==◌, if◌then◌else◌, ◌&&◌, ◌||◌, List, [],
  ◌∷◌, ◌++◌, Option, none, some, ℤ, pos, negsuc, is_neg, pos_part,
}

-- PROC_UNUSED to PROC_ZOMBIE.
pub data ProcState : Type 0 where
  unused idling runnable running sleeping zombie : ProcState

pub record Proc : Type 0 where
  pub state : ProcState
  pub futex_uaddr : ℕ

-- `runq` and `waitq` are in order, head first; `current` is `thiscpu()->proc`.
pub record Kernel : Type 0 where
  pub procs : ℕ → Proc
  pub runq : List ℕ
  pub waitq : List ℕ
  pub current : Option ℕ
  pub need_resched : Bool

-- `&c->idle`.
abbrev pub idle : ℕ
idle = 0

abbrev pub state_of : Kernel → ℕ → ProcState
state_of k p = (k.procs p).state

unfoldable pub set_state : Kernel → ℕ → ProcState → Kernel
set_state k p s = record k {
  procs = λ q. if p == q then record (k.procs q) { state = s } else k.procs q;
}

unfoldable pub enqueue_proc : Kernel → ℕ → Kernel
enqueue_proc k p = record k { runq = k.runq ++ p ∷ [] }

dequeue_from : Kernel → List ℕ → Option ℕ × Kernel
dequeue_from k [] = (none, k)
dequeue_from k (p ∷ ps) = (some p, record k { runq = ps })

-- `dequeue_proc`.
unfoldable pub dequeue_proc : Kernel → Option ℕ × Kernel
unfolding dequeue_from
dequeue_proc k = dequeue_from k k.runq

-- `old->state != PROC_ZOMBIE && old->state != PROC_SLEEPING`.
abbrev pub may_go_on : ProcState → Bool
may_go_on zombie = false
may_go_on sleeping = false
may_go_on _ = true

-- The end of `context_switch_yield`: the process that was chosen is made the current one.
unfoldable pub switch_to : Kernel → ℕ → Kernel
unfolding set_state
switch_to k next =
    if next == idle
    then record k { current = some next }
    else record (set_state k next running) { current = some next }

-- `context_switch_yield` behind its call of `dequeue_proc`.
unfoldable pub switch_next : Option ℕ → Kernel → ℕ → Kernel
unfolding switch_to set_state
switch_next (some p) k old = switch_to k p
switch_next none k old =
    if may_go_on (state_of k old) && not (old == idle)
    then record (set_state k old running) { current = some old }
    else switch_to k idle

-- `context_switch_yield`.
unfoldable pub context_switch_yield : Kernel → ℕ → Kernel
unfolding dequeue_proc switch_next
context_switch_yield k old = let (next, k') = dequeue_proc k in switch_next next k' old

-- The `switch` of `sched_yield`.
unfoldable pub requeue : Kernel → ℕ → Kernel
unfolding set_state enqueue_proc
requeue k p = elim (state_of k p) [ running ↦ enqueue_proc (set_state k p runnable) p | _ ↦ k ]

-- `sched_yield` with `thiscpu()->proc` read; `none` is the panic with no current process.
unfoldable pub yield_by : Option ℕ → Kernel → Option Kernel
unfolding requeue context_switch_yield
yield_by none k = none
yield_by (some p) k =
    some (context_switch_yield (record (requeue k p) { current = none; need_resched = false }) p)

unfoldable pub sched_yield : Kernel → Option Kernel
unfolding yield_by
sched_yield k = yield_by k.current k

-- The part of `wait_queue_sleep` and `wait_queue_sleep_locked` under the lock of the queue.
unfoldable pub go_to_sleep : Kernel → ℕ → Kernel
unfolding set_state
go_to_sleep k p = record (set_state k p sleeping) { waitq = k.waitq ++ p ∷ [] }

unfoldable pub wait_queue_sleep : Kernel → ℕ → Option Kernel
unfolding go_to_sleep sched_yield
wait_queue_sleep k p = sched_yield (go_to_sleep k p)

-- `wait_queue_sleep_locked`: the lock of the caller is released behind `go_to_sleep`.
unfoldable pub wait_queue_sleep_locked : Kernel → ℕ → Option Kernel
unfolding go_to_sleep sched_yield
wait_queue_sleep_locked k p = sched_yield (go_to_sleep k p)

-- One process woken: `p->state = PROC_RUNNABLE; enqueue_proc(r_tp(), p)`.
unfoldable pub make_runnable : Kernel → ℕ → Kernel
unfolding set_state enqueue_proc
make_runnable k p = enqueue_proc (set_state k p runnable) p

-- `nr > 0 && count >= nr`.
abbrev pub enough : ℤ → ℕ → Bool
enough nr count = not (is_neg nr) && ltb 0 (pos_part nr) && leb (pos_part nr) count

-- The loop of `wait_queue_wakeup` with the queue and the count so far.
unfoldable pub wake_loop : ℤ → ℕ → List ℕ → Kernel → Kernel × ℕ
unfolding make_runnable
wake_loop nr count [] k = (record k { waitq = [] }, count)
wake_loop nr count (p ∷ ps) k =
    let rest = wake_loop nr (count + 1) ps (make_runnable k p) in
    if enough nr (count + 1) then (record (make_runnable k p) { waitq = ps }, count + 1) else rest

-- `wait_queue_wakeup`.
unfoldable pub wait_queue_wakeup : Kernel → ℤ → Kernel × ℕ
unfolding wake_loop
wait_queue_wakeup k nr =
    let (k', count) = wake_loop nr 0 k.waitq k in
    (record k' { need_resched = if ltb 0 count then true else k'.need_resched }, count)

unfoldable pub wait_queue_wakeup_one : Kernel → Kernel
unfolding wait_queue_wakeup
wait_queue_wakeup_one k = (wait_queue_wakeup k (pos 1)).0

unfoldable pub wait_queue_wakeup_all : Kernel → Kernel
unfolding wait_queue_wakeup
wait_queue_wakeup_all k = (wait_queue_wakeup k (negsuc 0)).0

unfoldable pub wait_queue_wakeup_n : Kernel → ℤ → Kernel × ℕ
unfolding wait_queue_wakeup
wait_queue_wakeup_n k nr = if is_neg nr || pos_part nr == 0 then (k, 0) else wait_queue_wakeup k nr

-- `p->futex_uaddr = 0`.
unfoldable pub clear_uaddr : Kernel → ℕ → Kernel
clear_uaddr k p = record k {
  procs = λ q. if p == q then record (k.procs q) { futex_uaddr = 0 } else k.procs q;
}

-- The loop of `wait_queue_wakeup_addr`: the processes left in the queue, the kernel, and the count.
-- The test `count >= nr` stands behind a wake-up only.
unfoldable pub wake_addr_loop : ℕ → ℕ → ℕ → List ℕ → Kernel → List ℕ × Kernel × ℕ
unfolding make_runnable clear_uaddr
wake_addr_loop uaddr nr count [] k = ([], k, count)
wake_addr_loop uaddr nr count (p ∷ ps) k =
    let woken = clear_uaddr (make_runnable k p) p in
    let next : List ℕ × Kernel × ℕ = wake_addr_loop uaddr nr (count + 1) ps woken in
    let skipped : List ℕ × Kernel × ℕ =
      let (left, k', n) = wake_addr_loop uaddr nr count ps k in (p ∷ left, k', n) in
    if (k.procs p).futex_uaddr == uaddr
    then if leb nr (count + 1) then (ps, woken, count + 1) else next
    else skipped

-- `wait_queue_wakeup_addr`.
unfoldable pub wait_queue_wakeup_addr : Kernel → ℕ → ℤ → Kernel × ℕ
unfolding wake_addr_loop
wait_queue_wakeup_addr k uaddr nr =
    let (left, k', count) = wake_addr_loop uaddr (pos_part nr) 0 k.waitq k in
    if is_neg nr || pos_part nr == 0 then (k, 0) else (
      record k' { waitq = left; need_resched = if ltb 0 count then true else k'.need_resched },
      count,
    )

-- `wait_queue_count_addr`.
unfoldable pub count_addr : Kernel → ℕ → List ℕ → ℕ
count_addr k uaddr [] = 0
count_addr k uaddr (p ∷ ps) =
    if (k.procs p).futex_uaddr == uaddr then count_addr k uaddr ps + 1 else count_addr k uaddr ps
