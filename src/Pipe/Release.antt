-- ===== src/Pipe/Release.antt =====
-- When a pipe is freed.
use yu_noob_kernel.Base.{ℕ, ◌+◌, ◌≡◌, arith, Bool, true, false, List, [], ◌∷◌, if◌then◌else◌}
use yu_noob_kernel.Pipe.{Pipe, pipe_release}

-- How many of the ends in a list are read ends, and how many are write ends.
unfoldable pub readers : List Bool → ℕ
readers [] = 0
readers (e ∷ es) = if e then readers es + 1 else readers es

unfoldable pub writers : List Bool → ℕ
writers [] = 0
writers (e ∷ es) = if e then writers es else writers es + 1

-- Releasing the ends in a list, in turn: for each, whether the pipe was freed.
pub release_all : Pipe → List Bool → List Bool
release_all p [] = []
release_all p (e ∷ es) =
    let s = pipe_release p e in let rest = release_all s.pipe es in s.result ∷ rest

-- The answers wanted: the pipe is freed by the last release and by none before it.
pub freed_last : List Bool → List Bool
freed_last [] = []
freed_last (e ∷ []) = true ∷ []
freed_last (e ∷ f ∷ es) = false ∷ freed_last (f ∷ es)

-- If every open end of a pipe is released once, in any order, the pipe is freed by the last release
-- and by no earlier one: it is neither leaked nor freed twice.
pub release_all-freed_last :
    (ends : List Bool) (p : Pipe)
    → p.nreaders ≡ readers ends
    → p.nwriters ≡ writers ends
    → release_all p ends ≡ freed_last ends
unfolding release_all freed_last readers writers pipe_release
release_all-freed_last [] p h k = ground arith
release_all-freed_last (true ∷ []) p h k = ground arith
release_all-freed_last (false ∷ []) p h k = ground arith
release_all-freed_last (true ∷ f ∷ es) p h k =
    ground (arith, release_all-freed_last (f ∷ es) (pipe_release p true).pipe)
release_all-freed_last (false ∷ f ∷ es) p h k =
    ground (arith, release_all-freed_last (f ∷ es) (pipe_release p false).pipe)
