-- ===== src/Providers/Sorting.antt =====
-- `sorted(..., key=priority)`: a permutation, in order, that keeps entries of one priority in place.
use sovereign_rag_gateway.Prelude.{◌≡◌, Bool, ◌&&◌, List, arith, keep, Perm}
use sovereign_rag_gateway.Prelude.Sorting.{IsOrdered, sort_by-perm, sort_by-IsOrdered, keep-sort_by}
use sovereign_rag_gateway.Prelude.Int.{ℤ, leb_ℤ, ◌≤ℤ◌}
use sovereign_rag_gateway.Providers.{Entry, by_priority, sort_by_priority}

pub sort_by_priority-perm : (es : List Entry) → Perm (sort_by_priority es) es
sort_by_priority-perm es = sort_by-perm by_priority es

-- Each entry's priority is at most that of every later one.
abbrev pub IsSorted : List Entry → Type 0
IsSorted es = IsOrdered (λ e f. e.priority ≤ℤ f.priority) es

pub sort_by_priority-IsSorted : (es : List Entry) → IsSorted (sort_by_priority es)
sort_by_priority-IsSorted es =
    sort_by-IsOrdered by_priority (λ e f. e.priority ≤ℤ f.priority) (λ e f h. ground (arith, h))
      (λ e f h. ground (arith, h)) (λ e f g h k. omega arith) es

-- The entries of one priority.
abbrev pub of_priority : ℤ → Entry → Bool
of_priority p e = leb_ℤ e.priority p && leb_ℤ p e.priority

-- Sorting keeps the entries of one priority in the order they had, none lost and none added.
pub sort_by_priority-stable :
    (p : ℤ) (es : List Entry) → keep (of_priority p) (sort_by_priority es) ≡ keep (of_priority p) es
sort_by_priority-stable p es =
    keep-sort_by by_priority (of_priority p) (λ e f h k. ground (arith, h, k)) es
