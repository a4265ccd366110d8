-- ===== src/Inflight.antt =====
-- app/services/inflight_guard.py: the in-process limiter for concurrent requests. Every method
-- holds the lock for its whole body, so a method is one step on the state.
pub mod Counts
mod Examples
pub mod Sessions
use sovereign_rag_gateway.Prelude.{
  ℕ, ◌+◌, ◌-◌, String, Option, none, some, Bool, true, false, ◌&&◌, ◌||◌, List, [], ◌∷◌, not, ltb,
  leb, str_eq, if◌then◌else◌,
}
use sovereign_rag_gateway.Prelude.Dict.{Dict, get, get_or, put, pop}
use sovereign_rag_gateway.Prelude.Int.{ℤ, pos_part, ltb_ℤ, pos}

pub data Reason : Type 0 where
  global_limit tenant_limit : Reason

-- `InflightAcquireResult`
pub record AcquireResult : Type 0 where
  pub allowed : Bool
  pub reason : Option Reason
  pub global_inflight : ℕ
  pub tenant_inflight : ℕ

-- `InflightGuard`
pub record Guard : Type 0 where
  pub global_limit : ℕ
  pub tenant_default_limit : ℕ
  pub tenant_limits : Dict ℕ
  pub global_inflight : ℕ
  pub tenant_inflight : Dict ℕ

-- The comprehension over `tenant_limits` in `__init__`.
unfoldable pub valid_limits : Dict ℤ → Dict ℕ
valid_limits [] = []
valid_limits ((key, value) ∷ limits) =
    let rest = valid_limits limits in
    if not (str_eq key "") && ltb_ℤ (pos 0) value then (key, pos_part value) ∷ rest else rest

unfoldable pub init : ℤ → ℤ → Dict ℤ → Guard
unfolding valid_limits
init global_cap tenant_cap tenant_caps = record {
  global_limit = pos_part global_cap;
  tenant_default_limit = pos_part tenant_cap;
  tenant_limits = valid_limits tenant_caps;
  global_inflight = 0;
  tenant_inflight = [];
}

pub enabled : Guard → Bool
enabled g =
    ltb 0 g.global_limit
    || ltb 0 g.tenant_default_limit
    || elim g.tenant_limits [ [] ↦ false | _ ∷ _ ↦ true ]

-- `if not tenant_id: tenant_id = "unknown"`
unfoldable pub tenant_key : String → String
tenant_key tenant_id = if str_eq tenant_id "" then "unknown" else tenant_id

unfoldable pub tenant_limit_for : Guard → String → ℕ
tenant_limit_for g tenant_id = elim (get tenant_id g.tenant_limits) [
  | none ↦ g.tenant_default_limit
  | some configured ↦ if ltb 0 configured then configured else g.tenant_default_limit
]

-- `self._tenant_inflight[tenant_id]` on the default dictionary: a missing key is added with 0.
unfoldable pub touch : String → Dict ℕ → Dict ℕ
touch tenant_id d = elim (get tenant_id d) [ none ↦ put tenant_id 0 d | some n ↦ d ]

-- The body of `try_acquire` under the lock.
unfoldable pub acquire_key : String → Guard → AcquireResult × Guard
unfolding touch tenant_limit_for
acquire_key tenant_id g =
    let current_global : ℕ = g.global_inflight in
    let current_tenant : ℕ = get_or tenant_id 0 g.tenant_inflight in
    let seen : Guard = record g { tenant_inflight = touch tenant_id g.tenant_inflight } in
    let limit : ℕ = tenant_limit_for g tenant_id in
    if ltb 0 g.global_limit && leb g.global_limit current_global
    then (
      record {
        allowed = false;
        reason = some Reason.global_limit;
        global_inflight = current_global;
        tenant_inflight = current_tenant;
      },
      seen,
    )
    else if ltb 0 limit && leb limit current_tenant
    then (
      record {
        allowed = false;
        reason = some Reason.tenant_limit;
        global_inflight = current_global;
        tenant_inflight = current_tenant;
      },
      seen,
    )
    else (
      record {
        allowed = true;
        reason = none;
        global_inflight = current_global + 1;
        tenant_inflight = current_tenant + 1;
      },
      record seen {
        global_inflight = current_global + 1;
        tenant_inflight = put tenant_id (current_tenant + 1) seen.tenant_inflight;
      },
    )

unfoldable pub try_acquire : String → Guard → AcquireResult × Guard
unfolding acquire_key tenant_key
try_acquire tenant_id g = acquire_key (tenant_key tenant_id) g

-- The body of `release` under the lock.
unfoldable pub release_key : String → Guard → Guard
release_key tenant_id g =
    let current_tenant : ℕ = get_or tenant_id 0 g.tenant_inflight in
    record g {
      global_inflight =
          if ltb 0 g.global_inflight then g.global_inflight - 1 else g.global_inflight;
      tenant_inflight =
          if leb current_tenant 1
          then pop tenant_id g.tenant_inflight
          else put tenant_id (current_tenant - 1) g.tenant_inflight;
    }

unfoldable pub release : String → Guard → Guard
unfolding release_key tenant_key
release tenant_id g = release_key (tenant_key tenant_id) g

-- What the guard has counted for a tenant.
abbrev pub inflight_of : Guard → String → ℕ
inflight_of g tenant_id = get_or tenant_id 0 g.tenant_inflight
