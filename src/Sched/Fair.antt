-- ===== src/Sched/Fair.antt =====
-- Round robin: how long a runnable process waits.
use mathlib.Core.Path.{subst}
use yu_noob_kernel.Base.{
  occurs, ℕ, zero, suc, ◌≡◌, refl, ap, ◌∙◌, arith, false, ◌==◌, List, [], ◌∷◌, ◌++◌, Option, none,
  some, length, append_assoc,
}
use yu_noob_kernel.Sched.{
  Kernel, running, idle, state_of, requeue, switch_to, sched_yield, yield_by,
}
use yu_noob_kernel.Sched.Inv.{IsValid}
use yu_noob_kernel.Sched.Yield.{sched_yield-IsValid, context_switch_yield-cons}

-- `n` calls of `sched_yield`, each by the process that is current then.
pub yields : ℕ → Kernel → Option Kernel
yields zero k = some k
yields (suc n) k = elim (sched_yield k) [ none ↦ none | some k' ↦ yields n k' ]

yields_step :
    (n : ℕ) (k : Kernel) {k' : Kernel} {o : Option Kernel}
    → sched_yield k ≡ some k'
    → yields n k' ≡ o
    → yields (suc n) k ≡ o
unfolding yields
yields_step n k y ys = rw (y, yields) ys

next_not_idle :
    (k : Kernel) (q : ℕ) (qs : List ℕ) → IsValid k → k.runq ≡ q ∷ qs → (q == idle) ≡ false
unfolding occurs
next_not_idle k q qs v e = ground (arith, v.ready q, v.idle_off, ap (occurs q) e)

switched :
    (k : Kernel) (q : ℕ)
    → (q == idle) ≡ false
    → ((switch_to k q).current ≡ some q)
      × (state_of (switch_to k q) q ≡ running)
      × ((switch_to k q).runq ≡ k.runq)
unfolding switch_to
switched k q e = ground arith

-- The kernel when the running process `p` is back in the queue and `q` is taken out.
waiting : Kernel → ℕ → ℕ → List ℕ → Kernel
waiting k p q qs = record (requeue k p) {
  runq = qs ++ p ∷ [];
  current = none;
  need_resched = false;
}

hand_over :
    (k : Kernel) (p q : ℕ) (qs : List ℕ)
    → IsValid k
    → k.current ≡ some p
    → state_of k p ≡ running
    → k.runq ≡ q ∷ qs
    → sched_yield k ≡ some (switch_to (waiting k p q qs) q)
unfolding sched_yield waiting requeue
hand_over k p q qs v c r e =
    ap (λ (o : Option ℕ). yield_by o k) c
    ∙ ap some (
        context_switch_yield-cons (record (requeue k p) { current = none; need_resched = false }) p
          q (qs ++ p ∷ []) back)
  where
    back : (requeue k p).runq ≡ q ∷ (qs ++ p ∷ [])
    back = rw (r, requeue) (rw e)

-- One yield by a running process with another in the queue hands over to the head of the queue and
-- puts the old one at its back.
yield_running :
    (k : Kernel) (p q : ℕ) (qs : List ℕ)
    → IsValid k
    → k.current ≡ some p
    → state_of k p ≡ running
    → k.runq ≡ q ∷ qs
    → (k' : Kernel) × (sched_yield k ≡ some k')
      × IsValid k'
      × (k'.current ≡ some q)
      × (state_of k' q ≡ running)
      × (k'.runq ≡ qs ++ p ∷ [])
yield_running k p q qs v c r e =
    let handed : sched_yield k ≡ some (switch_to (waiting k p q qs) q) =
      hand_over k p q qs v c r e in
    let (k', e', v', _) = sched_yield-IsValid k p v c in
    let same : k' ≡ switch_to (waiting k p q qs) q = cc in
    let (c', s', q') = switched (waiting k p q qs) q (next_not_idle k q qs v e) in
    (
      switch_to (waiting k p q qs) q,
      handed,
      subst IsValid same v',
      c',
      s',
      q' ∙ (unfold waiting in refl),
    )

-- However many processes wait before it, a process in the run queue runs when all of them have had
-- their turn: with `length before` processes ahead, the running process and each process after it
-- giving up the CPU, it is the current process after `length before + 1` yields, and running.
pub yields-reach :
    (before : List ℕ) (k : Kernel) (p q : ℕ) (after : List ℕ)
    → IsValid k
    → k.current ≡ some p
    → state_of k p ≡ running
    → k.runq ≡ before ++ q ∷ after
    → (k' : Kernel) × (yields (suc (length before)) k ≡ some k')
      × (k'.current ≡ some q)
      × (state_of k' q ≡ running)
yields-reach [] k p q after v c r e =
    let (k', y, _, c', s', _) = yield_running k p q after v c r e in
    (k', yields_step 0 k y (unfold yields in refl), c', s')
yields-reach (b ∷ bs) k p q after v c r e =
    let (k', y, v', c', s', e') = yield_running k p b (bs ++ q ∷ after) v c r e in
    let (k'', ys, c'', s'') =
      yields-reach bs k' b q (after ++ p ∷ []) v' c' s'
        (e' ∙ append_assoc bs (q ∷ after) (p ∷ [])) in
    (k'', yields_step (suc (length bs)) k y ys, c'', s'')
