-- ===== src/Sched/Wakeup.antt =====
-- Whom a wake-up wakes.
use yu_noob_kernel.Base.{
  occurs, occurs-append, ℕ, suc, ◌+◌, ◌-◌, ◌<◌, ◌≡◌, refl, sym, ap, ◌∙◌, arith, true, false, not,
  ltb, ◌==◌, if◌then◌else◌, ◌&&◌, List, [], ◌∷◌, ◌++◌, Bool-cases, inl, inr, ℤ, negsuc, is_neg,
  pos_part, length, take, drop, append_assoc, append-nil, take_all, min,
}
use yu_noob_kernel.Sched.{
  Kernel, ProcState, runnable, state_of, make_runnable, enough, wake_loop, wait_queue_wakeup,
  wait_queue_wakeup_all,
}
use yu_noob_kernel.Sched.Inv.{IsValid, one_if_runnable, make_runnable-IsValid}

-- How many processes the loop wakes that has woken `count` and has `len` before it: all if `nr` is not
-- positive, and otherwise as many as are missing from `nr`.
abbrev pub quota : ℤ → ℕ → ℕ → ℕ
quota nr count len =
    if not (is_neg nr) && ltb 0 (pos_part nr) then min (pos_part nr - count) len else len

record Woke (n : ℕ) (ws : List ℕ) (count : ℕ) (k : Kernel) (out : Kernel × ℕ) : Type 0 where
  valid : IsValid out.0
  left : out.0.waitq ≡ drop n ws
  queued : out.0.runq ≡ k.runq ++ take n ws
  counted : out.1 ≡ count + n
  current : out.0.current ≡ k.current
  others : (p : ℕ) → occurs p (take n ws) ≡ 0 → out.0.procs p ≡ k.procs p

make_runnable_lem :
    (k : Kernel) (p q : ℕ)
    → ((make_runnable k p).runq ≡ k.runq ++ p ∷ [])
      × ((make_runnable k p).current ≡ k.current)
      × ((p == q) ≡ false → (make_runnable k p).procs q ≡ k.procs q)
unfolding make_runnable
make_runnable_lem k p q = (refl, refl, λ e. rw e)

wake_loop-Woke :
    (nr : ℤ) (count : ℕ) (ws : List ℕ) (k : Kernel)
    → IsValid (record k { waitq = ws })
    → (0 < pos_part nr → count < pos_part nr)
    → Woke (quota nr count (length ws)) ws count k (wake_loop nr count ws k)
unfolding wake_loop
wake_loop-Woke nr count [] k v h =
    let none_left : quota nr count 0 ≡ 0 = ground arith in
    rw none_left (record {
      valid = v;
      left = refl;
      queued = sym (append-nil k.runq);
      counted = omega arith;
      current = refl;
      others = λ p e. refl;
    })
wake_loop-Woke nr count (p ∷ ps) k v h = elim (Bool-cases (enough nr (count + 1))) [
  | inl e ↦
      let one : quota nr count (suc (length ps)) ≡ 1 = ground arith in
      rw (one, e)
        (record {
          valid = make_runnable-IsValid k p ps v;
          left = refl;
          queued = (make_runnable_lem k p p).0;
          counted = omega arith;
          current = (make_runnable_lem k p p).1;
          others = λ q e. (make_runnable_lem k p q).2 (unfold occurs in ground (arith, e));
        })
  | inr e ↦
      let w =
        wake_loop-Woke nr (count + 1) ps (make_runnable k p) (make_runnable-IsValid k p ps v)
          (ground (arith, h)) in
      let more : quota nr count (suc (length ps)) ≡ suc (quota nr (count + 1) (length ps)) =
        ground (arith, h) in
      rw (more, e)
        (record {
          valid = w.valid;
          left = w.left;
          queued =
              w.queued
              ∙ ap (λ r. r ++ take (quota nr (count + 1) (length ps)) ps)
                  (make_runnable_lem k p p).0
              ∙ append_assoc k.runq (p ∷ []) _;
          counted = omega (arith, w.counted);
          current = w.current ∙ (make_runnable_lem k p p).1;
          others = λ q z.
              w.others q (unfold occurs in ground (arith, z))
              ∙ (make_runnable_lem k p q).2 (unfold occurs in ground (arith, z));
        })
]

-- What a wake-up did: the `n` oldest sleepers have gone from the wait queue to the back of the run
-- queue, in order; nothing else of any process has changed, and a new choice of the current process
-- is asked for if anybody was woken.
pub record Wakeup (n : ℕ) (k : Kernel) (out : Kernel × ℕ) : Type 0 where
  pub valid : IsValid out.0
  pub left : out.0.waitq ≡ drop n k.waitq
  pub queued : out.0.runq ≡ k.runq ++ take n k.waitq
  pub counted : out.1 ≡ n
  pub current : out.0.current ≡ k.current
  pub others : (p : ℕ) → occurs p (take n k.waitq) ≡ 0 → out.0.procs p ≡ k.procs p
  pub resched : 0 < n → out.0.need_resched ≡ true

finish-Wakeup :
    (n : ℕ) (k : Kernel) (out : Kernel × ℕ)
    → Woke n k.waitq 0 k out
    → Wakeup n k
        (record out.0 { need_resched = if ltb 0 out.1 then true else out.0.need_resched }, out.1)
finish-Wakeup n k out w = record {
  valid = record {
    ready = w.valid.ready;
    asleep = w.valid.asleep;
    only = w.valid.only;
    idle_off = w.valid.idle_off;
  };
  left = w.left;
  queued = w.queued;
  counted = omega (arith, w.counted);
  current = w.current;
  others = w.others;
  resched = λ h. ground (arith, w.counted);
}

-- `wait_queue_wakeup` wakes the oldest sleepers, `nr` of them, or all if there are fewer or if `nr` is
-- not positive, puts them at the back of the run queue in their order, returns their number, and keeps
-- the invariant.
pub wait_queue_wakeup-Wakeup :
    (k : Kernel) (nr : ℤ)
    → IsValid k
    → Wakeup (quota nr 0 (length k.waitq)) k (wait_queue_wakeup k nr)
unfolding wait_queue_wakeup
wait_queue_wakeup-Wakeup k nr v =
    finish-Wakeup _ k (wake_loop nr 0 k.waitq k) (wake_loop-Woke nr 0 k.waitq k v (λ h. h))

drop_all : (xs : List ℕ) → drop (length xs) xs ≡ []
drop_all [] = refl
drop_all (x ∷ xs) = drop_all xs

was_queued : (s : ProcState) → 0 < one_if_runnable s → s ≡ runnable
was_queued s h = ground arith

-- Every process that was asleep in the queue is runnable and in the run queue after
-- `wait_queue_wakeup_all`, and the queue is empty: no wake-up is lost.
pub wakeup_all-none_left :
    (k : Kernel) (p : ℕ)
    → IsValid k
    → ((wait_queue_wakeup_all k).waitq ≡ [])
      × (0 < occurs p k.waitq → state_of (wait_queue_wakeup_all k) p ≡ runnable)
unfolding wait_queue_wakeup_all
wakeup_all-none_left k p v =
    let w = wait_queue_wakeup-Wakeup k (negsuc 0) v in
    (
      w.left ∙ drop_all k.waitq,
      (λ h. was_queued _ (
          omega (
            arith,
            w.valid.ready p,
            ap (occurs p) (
                w.queued ∙ ap (λ l. k.runq ++ l) (take_all (length k.waitq) k.waitq (omega arith))),
            occurs-append p k.runq k.waitq,
          ))),
    )
