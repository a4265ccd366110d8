-- ===== src/Budget/Redis.antt =====
-- app/budget/tracker.py: the token budget in Redis (RedisTokenBudgetTracker). The Redis server with
-- its client is a parameter, as are the text of a time and the UUIDs; times are ticks since the epoch,
-- which is further back than a window, and the server's clock is that of the program.
pub mod SortedSets
pub mod Tracking
pub mod Spent
mod Examples
use Prim.Native.String.{◌++◌ as str_append}
use sovereign_rag_gateway.Prelude.{
  ℕ, ◌+◌, ◌-◌, ◌*◌, max, String, Bool, false, Option, none, some, List, ◌∷◌, leb, ltb,
  if◌then◌else◌, sum_of,
}
use sovereign_rag_gateway.Prelude.Dict.{Dict, get_or}
use sovereign_rag_gateway.Prelude.Int.{ℤ, pos_part}
use sovereign_rag_gateway.Prelude.Text.{show_nat}
use sovereign_rag_gateway.Prelude.Text.Decimal.{code_points, int_of, split_colon}
use sovereign_rag_gateway.Budget.{BudgetExceeded, Summary}

-- The operations on sorted sets that the tracker calls, on the server's keys; false or none is an
-- exception of the client. `elapse` is what the passing of time does to the keys up to a time.
pub record Server : Type 1 where
  pub Keys : Type 0
  pub elapse : ℕ → Keys → Keys
  pub zremrangebyscore : String → ℕ → ℕ → Keys → Bool × Keys
  pub zrangebyscore : String → ℕ → Keys → Option (List String)
  -- `zadd` of a member with its score and `expire`, in one pipeline
  pub zadd_expire : ℕ → String → String → ℕ → ℕ → Keys → Bool × Keys

-- `RedisTokenBudgetTracker`
pub record RedisTracker : Type 0 where
  pub default_ceiling : ℕ
  pub window_seconds : ℕ
  pub tenant_ceilings : Dict ℕ
  pub key_prefix : String
  pub ttl_seconds : ℕ

-- `__init__`, where the server answers the ping
abbrev pub new_redis_tracker : ℕ → ℕ → Dict ℕ → String → ℕ → RedisTracker
new_redis_tracker default_ceiling window_seconds tenant_ceilings key_prefix ttl_seconds = record {
  default_ceiling = default_ceiling;
  window_seconds = window_seconds;
  tenant_ceilings = tenant_ceilings;
  key_prefix = key_prefix;
  ttl_seconds = max ttl_seconds (window_seconds * 2);
}

abbrev pub redis_ceiling_for : RedisTracker → String → ℕ
redis_ceiling_for t tenant_id = get_or tenant_id t.default_ceiling t.tenant_ceilings

-- `_key`
abbrev pub key_of : RedisTracker → String → String
key_of t tenant_id = str_append t.key_prefix (str_append ":" tenant_id)

abbrev pub tokens_of : Option ℤ → ℕ
tokens_of none = 0
tokens_of (some n) = pos_part n

abbrev pub tokens_in : List (List ℕ) → ℕ
tokens_in (stamp ∷ tokens ∷ uuid ∷ more) = tokens_of (int_of tokens)
tokens_in _ = 0

-- `_member_tokens`
unfoldable pub member_tokens : String → ℕ
member_tokens member = tokens_in (split_colon (code_points member))

-- The member that `record` adds; tokens are not negative.
unfoldable pub member_text : String → ℕ → String → String
member_text stamp tokens uuid =
    str_append stamp (str_append ":" (str_append (show_nat tokens) (str_append ":" uuid)))

-- How `check` ends: it returns, or raises BudgetExceededError or BudgetBackendError.
pub data RedisChecked : Type 0 where
  passed : RedisChecked
  exceeded : BudgetExceeded → RedisChecked
  backend_error : RedisChecked

abbrev pub total_of : Option (List String) → Option ℕ
total_of none = none
total_of (some members) = some (sum_of member_tokens members)

abbrev pub verdict : RedisTracker → String → ℕ → Option ℕ → RedisChecked
verdict t tenant_id requested_tokens none = backend_error
verdict t tenant_id requested_tokens (some current) =
    let ceiling : ℕ = redis_ceiling_for t tenant_id in
    if ltb ceiling (current + requested_tokens)
    then exceeded (record {
      tenant_id = tenant_id;
      used = current;
      ceiling = ceiling;
      window_seconds = t.window_seconds;
    })
    else passed

abbrev pub fits : RedisTracker → String → ℕ → Option ℕ → Bool
fits t tenant_id additional_tokens none = false
fits t tenant_id additional_tokens (some current) =
    leb (current + additional_tokens) (redis_ceiling_for t tenant_id)

abbrev pub summed_up : RedisTracker → String → Option ℕ → Option Summary
summed_up t tenant_id none = none
summed_up t tenant_id (some used) =
    let ceiling = redis_ceiling_for t tenant_id in
    some (record {
      tenant_id = tenant_id;
      window_seconds = t.window_seconds;
      ceiling = ceiling;
      used = used;
      remaining = ceiling - used;
    })

module _ (sv : Server) where
  open sv use {Keys, elapse, zremrangebyscore, zrangebyscore, zadd_expire}

  -- `_current_usage`; none is BudgetBackendError
  unfoldable pub current_usage : RedisTracker → ℕ → String → Keys → Option ℕ × Keys
  current_usage t now tenant_id keys =
      let key : String = key_of t tenant_id in
      let cutoff : ℕ = now - t.window_seconds in
      let (removed, keys1) = zremrangebyscore key 0 cutoff (elapse now keys) in
      (if removed then total_of (zrangebyscore key cutoff keys1) else none, keys1)

  unfoldable pub redis_check : RedisTracker → ℕ → String → ℕ → Keys → RedisChecked × Keys
  unfolding current_usage
  redis_check t now tenant_id requested_tokens keys =
      let (current, keys1) = current_usage t now tenant_id keys in
      (verdict t tenant_id requested_tokens current, keys1)

  -- `record`, with the text of the time and the UUID; false is BudgetBackendError
  unfoldable pub redis_record : RedisTracker → ℕ → String → ℕ → String → String → Keys → Bool × Keys
  redis_record t now tenant_id tokens stamp uuid keys =
      zadd_expire now (key_of t tenant_id) (member_text stamp tokens uuid) now t.ttl_seconds
        (elapse now keys)

  unfoldable pub redis_check_running : RedisTracker → ℕ → String → ℕ → Keys → Bool × Keys
  unfolding current_usage
  redis_check_running t now tenant_id additional_tokens keys =
      let (current, keys1) = current_usage t now tenant_id keys in
      (fits t tenant_id additional_tokens current, keys1)

  -- `summary`, less `utilization_pct`
  unfoldable pub redis_summary : RedisTracker → ℕ → String → Keys → Option Summary × Keys
  unfolding current_usage
  redis_summary t now tenant_id keys =
      let (used, keys1) = current_usage t now tenant_id keys in (summed_up t tenant_id used, keys1)
