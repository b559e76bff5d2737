-- ===== src/Sched/Chosen.antt =====
-- Which sleepers a wake-up by address chooses, and the steps of the invariant for it.
use yu_noob_kernel.Base.{
  occurs, ℕ, zero, suc, ◌<◌, ◌≡◌, inl, inr, refl, ap, ◌∙◌, arith, Bool, true, false, Bool-cases,
  ◌==◌, if◌then◌else◌, List, [], ◌∷◌,
}
use yu_noob_kernel.Sched.{Kernel, clear_uaddr}
use yu_noob_kernel.Sched.Inv.{IsValid}

-- Whether a process waits for this address.
abbrev pub waits_for : Kernel → ℕ → ℕ → Bool
waits_for k uaddr p = (k.procs p).futex_uaddr == uaddr

-- The first `n` processes of a queue that wait for the address, in order.
unfoldable pub chosen : ℕ → Kernel → ℕ → List ℕ → List ℕ
chosen zero k uaddr ps = []
chosen (suc n) k uaddr [] = []
chosen (suc n) k uaddr (p ∷ ps) =
    if waits_for k uaddr p then p ∷ chosen n k uaddr ps else chosen (suc n) k uaddr ps

-- The others, in order.
unfoldable pub others : ℕ → Kernel → ℕ → List ℕ → List ℕ
others zero k uaddr ps = ps
others (suc n) k uaddr [] = []
others (suc n) k uaddr (p ∷ ps) =
    if waits_for k uaddr p then others n k uaddr ps else p ∷ others (suc n) k uaddr ps

-- Only the processes of the queue matter to the choice.
unfoldable pub Agree : Kernel → Kernel → ℕ → List ℕ → Type 0
Agree k l uaddr ps = (q : ℕ) → 0 < occurs q ps → waits_for k uaddr q ≡ waits_for l uaddr q

Agree-tail :
    (k l : Kernel) (uaddr p : ℕ) (ps : List ℕ) → Agree k l uaddr (p ∷ ps) → Agree k l uaddr ps
unfolding Agree occurs
Agree-tail k l uaddr p ps h q o = h q (omega arith)

Agree-head :
    (k l : Kernel) (uaddr p : ℕ) (ps : List ℕ)
    → Agree k l uaddr (p ∷ ps)
    → waits_for k uaddr p ≡ waits_for l uaddr p
unfolding Agree occurs
Agree-head k l uaddr p ps h = h p (ground arith)

pub chosen-same :
    (n : ℕ) (k l : Kernel) (uaddr : ℕ) (ps : List ℕ)
    → Agree k l uaddr ps
    → (chosen n k uaddr ps ≡ chosen n l uaddr ps) × (others n k uaddr ps ≡ others n l uaddr ps)
unfolding chosen others
chosen-same zero k l uaddr ps h = (refl, refl)
chosen-same (suc n) k l uaddr [] h = (refl, refl)
chosen-same (suc n) k l uaddr (p ∷ ps) h =
    let a = Agree-head k l uaddr p ps h in
    let (c, o) = chosen-same n k l uaddr ps (Agree-tail k l uaddr p ps h) in
    let (c', o') = chosen-same (suc n) k l uaddr ps (Agree-tail k l uaddr p ps h) in
    elim (Bool-cases (waits_for l uaddr p)) [
      | inl e ↦ let f : waits_for k uaddr p ≡ true = a ∙ e in rw (e, f) (ap (λ r. p ∷ r) c, o)
      | inr e ↦ let f : waits_for k uaddr p ≡ false = a ∙ e in rw (e, f) (c', ap (λ r. p ∷ r) o')
    ]

-- The invariant does not depend on the order of the wait queue.
pub reordered :
    (k : Kernel) (ws vs : List ℕ)
    → ((q : ℕ) → occurs q ws ≡ occurs q vs)
    → IsValid (record k { waitq = ws })
    → IsValid (record k { waitq = vs })
reordered k ws vs h v = record {
  ready = v.ready;
  asleep = λ q. omega (arith, v.asleep q, h q);
  only = v.only;
  idle_off = v.idle_off;
}

pub cleared-IsValid :
    (k : Kernel) (p : ℕ) (ws : List ℕ)
    → IsValid (record k { waitq = ws })
    → IsValid (record (clear_uaddr k p) { waitq = ws })
unfolding clear_uaddr
cleared-IsValid k p ws v = record {
  ready = λ q. ground (arith, v.ready q);
  asleep = λ q. ground (arith, v.asleep q);
  only = λ q. ground (arith, v.only q);
  idle_off = ground (arith, v.idle_off);
}
