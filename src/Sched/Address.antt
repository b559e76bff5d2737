-- ===== src/Sched/Address.antt =====
-- The wake-up by address of src/sync/wait.c, `wait_queue_wakeup_addr`.
use yu_noob_kernel.Base.{
  occurs, occurs-append, ℕ, zero, suc, ◌+◌, ◌≤◌, ◌<◌, ◌≡◌, inl, inr, refl, sym, ap, ◌∙◌, arith,
  true, false, Bool-cases, leb, ◌==◌, ==_refl, List, [], ◌∷◌, ◌++◌, append-nil, append_assoc,
  length, ℤ, pos, negsuc, pos_part,
}
use yu_noob_kernel.Sched.{
  Kernel, ProcState, state_of, set_state, enqueue_proc, make_runnable, clear_uaddr, wake_addr_loop,
  wait_queue_wakeup_addr,
}
use yu_noob_kernel.Sched.Inv.{IsValid, make_runnable-IsValid, one_if_sleeping}
use yu_noob_kernel.Sched.Chosen.{
  waits_for, chosen, others, Agree, chosen-same, reordered, cleared-IsValid,
}

-- A process of the queue with this address, woken.
abbrev pub woken_at : Kernel → ℕ → Kernel
woken_at k p = clear_uaddr (make_runnable k p) p

occurs-middle : (q p : ℕ) (pre ps : List ℕ) → occurs q (pre ++ p ∷ ps) ≡ occurs q (p ∷ pre ++ ps)
unfolding occurs
occurs-middle q p pre ps = omega (arith, occurs-append q pre (p ∷ ps), occurs-append q pre ps)

woken_at-IsValid :
    (k : Kernel) (p : ℕ) (pre ps : List ℕ)
    → IsValid (record k { waitq = pre ++ p ∷ ps })
    → IsValid (record (woken_at k p) { waitq = pre ++ ps })
woken_at-IsValid k p pre ps v = cleared-IsValid (make_runnable k p) p (pre ++ ps) (
    make_runnable-IsValid k p (pre ++ ps)
      (reordered k (pre ++ p ∷ ps) (p ∷ pre ++ ps) (λ q. occurs-middle q p pre ps) v))

occurs_self :
    (p : ℕ) (pre ps : List ℕ) → occurs p (pre ++ p ∷ ps) ≡ occurs p pre + suc (occurs p ps)
unfolding occurs
occurs_self p pre ps =
    occurs-append p pre (p ∷ ps) ∙ ap (λ n. occurs p pre + n) (rw (==_refl p) (omega arith))

-- No other process of the queue is the one that was woken.
woken_at-Agree :
    (k : Kernel) (uaddr p : ℕ) (pre ps : List ℕ)
    → IsValid (record k { waitq = pre ++ p ∷ ps })
    → Agree (woken_at k p) k uaddr ps
unfolding Agree
woken_at-Agree k uaddr p pre ps v q o = elim (Bool-cases (p == q)) [
  | inl e ↦ absurd (twice e)
  | inr e ↦ unfold make_runnable clear_uaddr set_state enqueue_proc in rw e refl
]
  where
    small : (s : ProcState) → one_if_sleeping s ≤ 1
    small s = ground arith

    twice : (p == q) ≡ true → ⊥
    twice e =
        let same : p ≡ q = ground arith in
        let again : 0 < occurs p ps = rw same o in
        omega (arith, v.asleep p, small (state_of k p), occurs_self p pre ps, again)

woken_at-runq : (k : Kernel) (p : ℕ) → (woken_at k p).runq ≡ k.runq ++ p ∷ []
unfolding make_runnable clear_uaddr set_state enqueue_proc
woken_at-runq k p = refl

woken_at-current : (k : Kernel) (p : ℕ) → (woken_at k p).current ≡ k.current
unfolding make_runnable clear_uaddr set_state enqueue_proc
woken_at-current k p = refl

record Woken (n uaddr count : ℕ) (pre ws : List ℕ) (k : Kernel) (out : List ℕ × Kernel × ℕ)
    : Type 0 where
  valid : IsValid (record out.1 { waitq = pre ++ out.0 })
  left : out.0 ≡ others n k uaddr ws
  queued : out.1.runq ≡ k.runq ++ chosen n k uaddr ws
  counted : out.2 ≡ count + length (chosen n k uaddr ws)
  current : out.1.current ≡ k.current

-- The last process that may be woken.
Woken-last :
    (uaddr count : ℕ) (pre : List ℕ) (p : ℕ) (ps : List ℕ) (k : Kernel)
    → waits_for k uaddr p ≡ true
    → IsValid (record k { waitq = pre ++ p ∷ ps })
    → Woken 1 uaddr count pre (p ∷ ps) k (ps, woken_at k p, count + 1)
unfolding chosen others
Woken-last uaddr count pre p ps k e v = record {
  valid = woken_at-IsValid k p pre ps v;
  left = rw e refl;
  queued = woken_at-runq k p ∙ rw e refl;
  counted = rw e refl;
  current = woken_at-current k p;
}

-- A process that is woken before others.
Woken-first :
    (n uaddr count : ℕ) (pre : List ℕ) (p : ℕ) (ps : List ℕ) (k : Kernel)
    (out : List ℕ × Kernel × ℕ)
    → waits_for k uaddr p ≡ true
    → IsValid (record k { waitq = pre ++ p ∷ ps })
    → Woken n uaddr (count + 1) pre ps (woken_at k p) out
    → Woken (suc n) uaddr count pre (p ∷ ps) k out
unfolding chosen others
Woken-first n uaddr count pre p ps k out e v w =
    let (c, o) = chosen-same n (woken_at k p) k uaddr ps (woken_at-Agree k uaddr p pre ps v) in
    record {
      valid = w.valid;
      left = rw e (w.left ∙ o);
      queued = rw e (
          w.queued
          ∙ ap (λ r. r ++ chosen n (woken_at k p) uaddr ps) (woken_at-runq k p)
          ∙ append_assoc k.runq (p ∷ []) (chosen n (woken_at k p) uaddr ps)
          ∙ ap (λ r. k.runq ++ p ∷ r) c);
      counted = rw e (omega (arith, w.counted, ap length c));
      current = w.current ∙ woken_at-current k p;
    }

-- A process that waits for another address.
passed_over :
    (n uaddr count : ℕ) (pre : List ℕ) (p : ℕ) (ps : List ℕ) (k : Kernel)
    (out : List ℕ × Kernel × ℕ)
    → waits_for k uaddr p ≡ false
    → Woken (suc n) uaddr count (pre ++ p ∷ []) ps k out
    → Woken (suc n) uaddr count pre (p ∷ ps) k (p ∷ out.0, out.1, out.2)
unfolding chosen others
passed_over n uaddr count pre p ps k out e w = record {
  valid =
      reordered out.1 ((pre ++ p ∷ []) ++ out.0) (pre ++ p ∷ out.0)
        (λ q. ap (occurs q) (append_assoc pre (p ∷ []) out.0)) w.valid;
  left = rw e (ap (λ r. p ∷ r) w.left);
  queued = rw e w.queued;
  counted = rw e w.counted;
  current = w.current;
}

wake_addr_loop-Woken :
    (n uaddr nr count : ℕ) (pre ws : List ℕ) (k : Kernel)
    → nr ≡ count + suc n
    → IsValid (record k { waitq = pre ++ ws })
    → Woken (suc n) uaddr count pre ws k (wake_addr_loop uaddr nr count ws k)
unfolding wake_addr_loop chosen others
wake_addr_loop-Woken n uaddr nr count pre [] k h v = record {
  valid = v;
  left = refl;
  queued = sym (append-nil k.runq);
  counted = omega arith;
  current = refl;
}
wake_addr_loop-Woken zero uaddr nr count pre (p ∷ ps) k h v =
    elim (Bool-cases (waits_for k uaddr p)) [
      | inl e ↦
          let stop : leb nr (count + 1) ≡ true = ground arith in
          rw (e, stop) (Woken-last uaddr count pre p ps k e v)
      | inr e ↦ rw e (
          passed_over zero uaddr count pre p ps k _ e (
            wake_addr_loop-Woken zero uaddr nr count (pre ++ p ∷ []) ps k h (
              reordered k (pre ++ p ∷ ps) ((pre ++ p ∷ []) ++ ps)
                (λ q. ap (occurs q) (sym (append_assoc pre (p ∷ []) ps))) v)))
    ]
wake_addr_loop-Woken (suc n) uaddr nr count pre (p ∷ ps) k h v =
    elim (Bool-cases (waits_for k uaddr p)) [
      | inl e ↦
          let more : leb nr (count + 1) ≡ false = ground arith in
          rw (e, more)
            (Woken-first (suc n) uaddr count pre p ps k _ e v (
              wake_addr_loop-Woken n uaddr nr (count + 1) pre ps (woken_at k p) (omega arith)
                (woken_at-IsValid k p pre ps v)))
      | inr e ↦ rw e (
          passed_over (suc n) uaddr count pre p ps k _ e (
            wake_addr_loop-Woken (suc n) uaddr nr count (pre ++ p ∷ []) ps k h (
              reordered k (pre ++ p ∷ ps) ((pre ++ p ∷ []) ++ ps)
                (λ q. ap (occurs q) (sym (append_assoc pre (p ∷ []) ps))) v)))
    ]

-- What a wake-up by address did: the first `n` that wait for it have gone to the back of the run
-- queue, in order, and the others are still asleep, in order.
pub record AddrWakeup (n uaddr : ℕ) (k : Kernel) (out : Kernel × ℕ) : Type 0 where
  pub valid : IsValid out.0
  pub left : out.0.waitq ≡ others n k uaddr k.waitq
  pub queued : out.0.runq ≡ k.runq ++ chosen n k uaddr k.waitq
  pub counted : out.1 ≡ length (chosen n k uaddr k.waitq)
  pub current : out.0.current ≡ k.current

-- `wait_queue_wakeup_addr` wakes the oldest sleepers that wait for the address, at most `nr` of them
-- and none if `nr` is not positive, puts them at the back of the run queue in their order, leaves
-- the other sleepers in theirs, returns the number of those woken, and keeps the invariant.
pub wait_queue_wakeup_addr-AddrWakeup :
    (k : Kernel) (uaddr : ℕ) (nr : ℤ)
    → IsValid k
    → AddrWakeup (pos_part nr) uaddr k (wait_queue_wakeup_addr k uaddr nr)
unfolding wait_queue_wakeup_addr chosen others
wait_queue_wakeup_addr-AddrWakeup k uaddr (pos zero) v = record {
  valid = v;
  left = refl;
  queued = sym (append-nil k.runq);
  counted = refl;
  current = refl;
}
wait_queue_wakeup_addr-AddrWakeup k uaddr (negsuc n) v = record {
  valid = v;
  left = refl;
  queued = sym (append-nil k.runq);
  counted = refl;
  current = refl;
}
wait_queue_wakeup_addr-AddrWakeup k uaddr (pos (suc n)) v =
    let w = wake_addr_loop-Woken n uaddr (suc n) 0 [] k.waitq k (omega arith) v in
    let positive : (suc n == 0) ≡ false = ground arith in
    rw positive (record {
      valid = record {
        ready = w.valid.ready;
        asleep = w.valid.asleep;
        only = w.valid.only;
        idle_off = w.valid.idle_off;
      };
      left = w.left;
      queued = w.queued;
      counted = w.counted ∙ omega arith;
      current = w.current;
    })
