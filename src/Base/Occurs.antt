-- ===== src/Base/Occurs.antt =====
-- How often a number stands in a list, and a list without it. The nodes of a `struct list_head` list
-- (include/misc/list.h) are their numbers in order.
use Prim.Native.Nat.{ℕ, ◌+◌}
use mathlib.Core.Path.{◌≡◌}
use mathlib.Core.List.{List, [], ◌∷◌, ◌++◌}
use native.Mathlib.Omega.{arith}
use yu_noob_kernel.Base.Tests.{◌==◌, if◌then◌else◌}

unfoldable pub occurs : ℕ → List ℕ → ℕ
occurs p [] = 0
occurs p (q ∷ qs) = (if p == q then 1 else 0) + occurs p qs

pub occurs-append : (p : ℕ) (xs ys : List ℕ) → occurs p (xs ++ ys) ≡ occurs p xs + occurs p ys
unfolding occurs
occurs-append p [] ys = omega arith
occurs-append p (x ∷ xs) ys = omega (arith, occurs-append p xs ys)

-- `list_del` of the node of `b`: the list that it is in without it.
unfoldable pub list_del : ℕ → List ℕ → List ℕ
list_del b [] = []
list_del b (x ∷ xs) = if b == x then list_del b xs else x ∷ list_del b xs

pub occurs-list_del :
    (a b : ℕ) (xs : List ℕ) → occurs a (list_del b xs) ≡ (if b == a then 0 else occurs a xs)
unfolding occurs list_del
occurs-list_del a b [] = ground arith
occurs-list_del a b (x ∷ xs) = ground (arith, occurs-list_del a b xs)
