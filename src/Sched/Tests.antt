-- ===== src/Sched/Tests.antt =====
-- The theorems about src/task/sched.c and src/sync/wait.c on a small kernel.
use yu_noob_kernel.Base.{
  occurs, ℕ, ◌<◌, ◌≤◌, ◌≡◌, refl, arith, false, ◌==◌, if◌then◌else◌, ◌||◌, [], ◌∷◌, some, pos,
}
use yu_noob_kernel.Sched.{
  Kernel, ProcState, unused, idling, runnable, running, sleeping, state_of, sched_yield,
  wait_queue_wakeup, wait_queue_wakeup_all,
}
use yu_noob_kernel.Sched.Inv.{IsValid, one_if_runnable, one_if_sleeping}
use yu_noob_kernel.Sched.Yield.{Runs, sched_yield-IsValid}
use yu_noob_kernel.Sched.Wakeup.{Wakeup, wait_queue_wakeup-Wakeup, wakeup_all-none_left}
use yu_noob_kernel.Sched.Address.{AddrWakeup, wait_queue_wakeup_addr-AddrWakeup}
use yu_noob_kernel.Sched.{
  wait_queue_wakeup_addr, wake_addr_loop, make_runnable, clear_uaddr, set_state, enqueue_proc,
}
use yu_noob_kernel.Sched.Fair.{yields, yields-reach}

-- Process 1 runs, 2 and 3 wait for the CPU, 4 and 5 sleep, and there is no other.
abbrev states : ℕ → ProcState
states p =
    if p == 0
    then idling
    else if p == 1
    then running
    else if p == 2 || p == 3
    then runnable
    else if p == 4 || p == 5
    then sleeping
    else unused

abbrev busy : Kernel
busy = record {
  procs = λ p. record { state = states p; futex_uaddr = 0 };
  runq = 2 ∷ 3 ∷ [];
  waitq = 4 ∷ 5 ∷ [];
  current = some 1;
  need_resched = false;
}

queued : (p : ℕ) → occurs p (2 ∷ 3 ∷ []) ≡ one_if_runnable (states p)
unfolding occurs
queued p = ground arith

asleep : (p : ℕ) → occurs p (4 ∷ 5 ∷ []) ≤ one_if_sleeping (states p)
unfolding occurs
asleep p = ground arith

one_runs : (p : ℕ) → states p ≡ running → some 1 ≡ some p
one_runs p h = ground arith

busy-IsValid : IsValid busy
busy-IsValid = record { ready = queued; asleep = asleep; only = one_runs; idle_off = refl }

sched_yield-IsValid_example : (k' : Kernel) × (sched_yield busy ≡ some k') × IsValid k' × Runs k'
sched_yield-IsValid_example = sched_yield-IsValid busy 1 busy-IsValid refl

wait_queue_wakeup-Wakeup_example : Wakeup 1 busy (wait_queue_wakeup busy (pos 1))
wait_queue_wakeup-Wakeup_example = wait_queue_wakeup-Wakeup busy (pos 1) busy-IsValid

all_woken :
    ((wait_queue_wakeup_all busy).waitq ≡ [])
    × (0 < occurs 4 (4 ∷ 5 ∷ []) → state_of (wait_queue_wakeup_all busy) 4 ≡ runnable)
all_woken = wakeup_all-none_left busy 4 busy-IsValid

-- Process 5 waits for the address 8, and process 4 for none.
abbrev keyed : Kernel
keyed = record busy {
  procs = λ p. record { state = states p; futex_uaddr = if p == 5 then 8 else 0 };
}

keyed-IsValid : IsValid keyed
keyed-IsValid = record { ready = queued; asleep = asleep; only = one_runs; idle_off = refl }

woken_at_address : AddrWakeup 3 8 keyed (wait_queue_wakeup_addr keyed 8 (pos 3))
woken_at_address = wait_queue_wakeup_addr-AddrWakeup keyed 8 (pos 3) keyed-IsValid

four_stays :
    ((wait_queue_wakeup_addr keyed 8 (pos 3)).0.waitq ≡ 4 ∷ [])
    × ((wait_queue_wakeup_addr keyed 8 (pos 3)).1 ≡ 1)
unfolding wait_queue_wakeup_addr wake_addr_loop make_runnable clear_uaddr set_state enqueue_proc
four_stays = (refl, refl)

yields-reach_example :
    (k' : Kernel) × (yields 2 busy ≡ some k') × (k'.current ≡ some 3) × (state_of k' 3 ≡ running)
yields-reach_example = yields-reach (2 ∷ []) busy 1 3 [] busy-IsValid refl refl refl
