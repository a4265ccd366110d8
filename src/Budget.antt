-- ===== src/Budget.antt =====
-- app/budget/tracker.py: the in-process sliding-window token budget. Every method holds the lock for
-- its reads and writes of the buckets; the clock, a float of seconds, is a number of ticks given to
-- the call, the window is in ticks too, and token counts and ceilings are not negative.
pub mod Window
pub mod Admission
pub mod Redis
mod Examples
use sovereign_rag_gateway.Prelude.{
  ℕ, ◌+◌, ◌-◌, String, Bool, Option, none, some, List, [], ◌∷◌, ◌++◌, leb, ltb, if◌then◌else◌, keep,
  sum_of,
}
use sovereign_rag_gateway.Prelude.Dict.{Dict, get, get_or, put, pop}

pub record UsageEntry : Type 0 where
  pub timestamp : ℕ
  pub tokens : ℕ

-- `TenantBucket`: its entries.
abbrev pub Bucket : Type 0
Bucket = List UsageEntry

abbrev pub prune : ℕ → Bucket → Bucket
prune cutoff entries = keep (λ e. leb cutoff e.timestamp) entries

abbrev pub total_tokens : Bucket → ℕ
total_tokens entries = sum_of (λ e. e.tokens) entries

-- `TokenBudgetTracker`
pub record Tracker : Type 0 where
  pub default_ceiling : ℕ
  pub window : ℕ
  pub tenant_ceilings : Dict ℕ
  pub buckets : Dict Bucket

pub record BudgetExceeded : Type 0 where
  pub tenant_id : String
  pub used : ℕ
  pub ceiling : ℕ
  pub window_seconds : ℕ

abbrev pub ceiling_for : Tracker → String → ℕ
ceiling_for t tenant_id = get_or tenant_id t.default_ceiling t.tenant_ceilings

-- `self._buckets[tenant_id]`, an empty bucket by default.
abbrev pub bucket_of : Tracker → String → Bucket
bucket_of t tenant_id = get_or tenant_id [] t.buckets

-- `monotonic() - self._window_seconds`. Where this is negative in the program no entry is older, and
-- none is older than 0.
abbrev pub cutoff_at : Tracker → ℕ → ℕ
cutoff_at t now = now - t.window

abbrev pub set_bucket : String → Bucket → Tracker → Tracker
set_bucket tenant_id b t = record t { buckets = put tenant_id b t.buckets }

-- The bucket is pruned and stored, as `check`, `usage` and `check_running` do first.
abbrev pub pruned : ℕ → String → Tracker → Tracker
pruned now tenant_id t = set_bucket tenant_id (prune (cutoff_at t now) (bucket_of t tenant_id)) t

abbrev pub current_tokens : ℕ → String → Tracker → ℕ
current_tokens now tenant_id t = total_tokens (prune (cutoff_at t now) (bucket_of t tenant_id))

-- The error that `check` raises, or none.
unfoldable pub check : ℕ → String → ℕ → Tracker → Option BudgetExceeded × Tracker
check now tenant_id requested_tokens t =
    let ceiling : ℕ = ceiling_for t tenant_id in
    let current : ℕ = current_tokens now tenant_id t in
    (
      if ltb ceiling (current + requested_tokens)
          then some (record {
            tenant_id = tenant_id;
            used = current;
            ceiling = ceiling;
            window_seconds = t.window;
          })
          else none,
      pruned now tenant_id t,
    )

-- `record`
unfoldable pub record_usage : ℕ → String → ℕ → Tracker → Tracker
record_usage now tenant_id tokens t =
    set_bucket tenant_id (bucket_of t tenant_id ++ record { timestamp = now; tokens = tokens } ∷ [])
      t

unfoldable pub usage : ℕ → String → Tracker → ℕ × Tracker
usage now tenant_id t = (current_tokens now tenant_id t, pruned now tenant_id t)

unfoldable pub check_running : ℕ → String → ℕ → Tracker → Bool × Tracker
check_running now tenant_id additional_tokens t = (
  leb (current_tokens now tenant_id t + additional_tokens) (ceiling_for t tenant_id),
  pruned now tenant_id t,
)

-- `max(0, ceiling - used)`: the difference of natural numbers stops at 0.
unfoldable pub remaining : ℕ → String → Tracker → ℕ × Tracker
unfolding usage
remaining now tenant_id t =
    let (used, t') = usage now tenant_id t in (ceiling_for t tenant_id - used, t')

unfoldable pub reset : String → Tracker → Tracker
reset tenant_id t = record t { buckets = pop tenant_id t.buckets }

-- `summary`, less `utilization_pct`, a float made of `used` and `ceiling`.
pub record Summary : Type 0 where
  pub tenant_id : String
  pub window_seconds : ℕ
  pub ceiling : ℕ
  pub used : ℕ
  pub remaining : ℕ

unfoldable pub summary : ℕ → String → Tracker → Summary × Tracker
unfolding usage
summary now tenant_id t =
    let ceiling = ceiling_for t tenant_id in
    let (used, t') = usage now tenant_id t in
    (
      record {
        tenant_id = tenant_id;
        window_seconds = t.window;
        ceiling = ceiling;
        used = used;
        remaining = ceiling - used;
      },
      t',
    )
