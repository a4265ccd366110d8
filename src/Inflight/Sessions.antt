-- ===== src/Inflight/Sessions.antt =====
-- The guard against the requests that are being served. An abstract state is the list of the
-- tenant keys of the admitted requests that have not finished; the callers, chat_service.py, call
-- `release` once for each admitted request.
use sovereign_rag_gateway.Prelude.{
  ℕ, ◌+◌, ◌-◌, ◌≤◌, ◌<◌, ◌≡◌, refl, String, true, false, List, [], ◌∷◌, arith, str_eq, eq_iff,
  if◌then◌else◌, length,
}
use sovereign_rag_gateway.Prelude.Int.{ℤ}
use sovereign_rag_gateway.Prelude.Dict.{Dict, get}
use sovereign_rag_gateway.Inflight.{
  init, Guard, tenant_key, acquire_key, try_acquire, release_key, release, inflight_of,
  tenant_limit_for,
}
use sovereign_rag_gateway.Inflight.Counts.{
  inflight_of-acquire_key, global-acquire_key, inflight_of-release_key, global-release_key,
}

pub record Served : Type 0 where
  pub guard : Guard
  pub active : List String

abbrev pub count : String → List String → ℕ
count k [] = 0
count k (t ∷ ts) = (if str_eq t k then 1 else 0) + count k ts

-- One request of the tenant finishes.
abbrev pub remove_one : String → List String → List String
remove_one k [] = []
remove_one k (t ∷ ts) = if str_eq t k then ts else t ∷ remove_one k ts

-- One call on the guard by a request. A release is made by a request that is being served.
pub data Step : Served → Served → Type 0 where
  admit :
      (t : String) (s : Served)
      → (try_acquire t s.guard).0.allowed ≡ true
      → Step s (record { guard = (try_acquire t s.guard).1; active = tenant_key t ∷ s.active })
  shed :
      (t : String) (s : Served)
      → (try_acquire t s.guard).0.allowed ≡ false
      → Step s (record { guard = (try_acquire t s.guard).1; active = s.active })
  finish :
      (t : String) (s : Served)
      → 0 < count (tenant_key t) s.active
      → Step s (record { guard = release t s.guard; active = remove_one (tenant_key t) s.active })

pub data Reach (s : Served) : Served → Type 0 where
  here : Reach s s
  next : {t u : Served} → Reach s t → Step t u → Reach s u

-- The counters are those of the requests being served, and no cap is passed. A cap of 0 is none.
pub record IsAccurate (s : Served) : Type 0 where
  pub tenants : (k : String) → inflight_of s.guard k ≡ count k s.active
  pub total : s.guard.global_inflight ≡ length s.active
  pub below_global : 0 < s.guard.global_limit → length s.active ≤ s.guard.global_limit
  pub below_tenant :
      (k : String) → 0 < tenant_limit_for s.guard k → count k s.active ≤ tenant_limit_for s.guard k

count-remove_one :
    (k j : String) (ts : List String)
    → 0 < count k ts
    → count j (remove_one k ts) ≡ (if str_eq k j then count j ts - 1 else count j ts)
count-remove_one k j [] h = absurd (omega arith)
count-remove_one k j (t ∷ ts) h =
    ground (arith, eq_iff t k, eq_iff t j, eq_iff k j, count-remove_one k j ts)

length-remove_one :
    (k : String) (ts : List String) → 0 < count k ts → length (remove_one k ts) + 1 ≡ length ts
length-remove_one k [] h = absurd (omega arith)
length-remove_one k (t ∷ ts) h = ground (arith, length-remove_one k ts)

-- What an admitted request found: room under both caps.
room_global :
    (t : String) (g : Guard)
    → (acquire_key t g).0.allowed ≡ true
    → 0 < g.global_limit
    → g.global_inflight < g.global_limit
unfolding acquire_key
room_global t g h p = ground arith

room_tenant :
    (t : String) (g : Guard)
    → (acquire_key t g).0.allowed ≡ true
    → 0 < tenant_limit_for g t
    → inflight_of g t < tenant_limit_for g t
unfolding acquire_key
room_tenant t g h p = ground arith

limit-acquire_key : (t : String) (g : Guard) → (acquire_key t g).1.global_limit ≡ g.global_limit
unfolding acquire_key
limit-acquire_key t g = ground arith

tenant_limit_for-acquire_key :
    (t k : String) (g : Guard) → tenant_limit_for (acquire_key t g).1 k ≡ tenant_limit_for g k
unfolding acquire_key
tenant_limit_for-acquire_key t k g = ground arith

tenant_limit_for-release_key :
    (t k : String) (g : Guard) → tenant_limit_for (release_key t g) k ≡ tenant_limit_for g k
unfolding release_key tenant_limit_for
tenant_limit_for-release_key t k g = refl

limit-release_key : (t : String) (g : Guard) → (release_key t g).global_limit ≡ g.global_limit
unfolding release_key
limit-release_key t g = refl

module _ (t : String) (s : Served) (h : IsAccurate s) where
  admit-IsAccurate :
      (acquire_key t s.guard).0.allowed ≡ true
      → IsAccurate (record { guard = (acquire_key t s.guard).1; active = t ∷ s.active })
  admit-IsAccurate a = record {
    tenants = λ k. ground (arith, inflight_of-acquire_key t k s.guard, h.tenants k);
    total = ground (arith, global-acquire_key t s.guard, h.total);
    below_global = λ p. ground (arith, limit-acquire_key t s.guard, room_global t s.guard, h.total);
    below_tenant = λ k p. ground (
      arith,
      tenant_limit_for-acquire_key t k s.guard,
      room_tenant t s.guard,
      h.tenants t,
      h.below_tenant k,
      eq_iff t k,
    );
  }

  shed-IsAccurate :
      (acquire_key t s.guard).0.allowed ≡ false
      → IsAccurate (record { guard = (acquire_key t s.guard).1; active = s.active })
  shed-IsAccurate a = record {
    tenants = λ k. ground (arith, inflight_of-acquire_key t k s.guard, h.tenants k);
    total = ground (arith, global-acquire_key t s.guard, h.total);
    below_global = λ p. ground (arith, limit-acquire_key t s.guard, h.below_global);
    below_tenant =
        λ k p. ground (arith, tenant_limit_for-acquire_key t k s.guard, h.below_tenant k);
  }

  finish-IsAccurate :
      0 < count t s.active
      → IsAccurate (record { guard = release_key t s.guard; active = remove_one t s.active })
  finish-IsAccurate a = record {
    tenants = λ k.
        ground
          (arith, inflight_of-release_key t k s.guard, h.tenants k, count-remove_one t k s.active);
    total = ground (arith, global-release_key t s.guard, h.total, length-remove_one t s.active);
    below_global = λ p.
        ground (arith, limit-release_key t s.guard, h.below_global, length-remove_one t s.active);
    below_tenant = λ k p. ground (
      arith,
      tenant_limit_for-release_key t k s.guard,
      h.below_tenant k,
      count-remove_one t k s.active,
    );
  }

pub Step-IsAccurate : {s u : Served} → Step s u → IsAccurate s → IsAccurate u
unfolding try_acquire release
Step-IsAccurate (admit t s a) h = admit-IsAccurate (tenant_key t) s h a
Step-IsAccurate (shed t s a) h = shed-IsAccurate (tenant_key t) s h a
Step-IsAccurate (finish t s a) h = finish-IsAccurate (tenant_key t) s h a

Reach-IsAccurate_from : {s u : Served} → IsAccurate s → Reach s u → IsAccurate u
Reach-IsAccurate_from h here = h
Reach-IsAccurate_from h (next r st) = Step-IsAccurate st (Reach-IsAccurate_from h r)

-- A new guard, and no request.
abbrev pub start : ℤ → ℤ → Dict ℤ → Served
start global_cap tenant_cap tenant_caps = record {
  guard = init global_cap tenant_cap tenant_caps;
  active = [];
}

start-IsAccurate : (gc tc : ℤ) (tcs : Dict ℤ) → IsAccurate (start gc tc tcs)
unfolding init get
start-IsAccurate gc tc tcs = record {
  tenants = λ k. refl;
  total = refl;
  below_global = λ p. omega arith;
  below_tenant = λ k p. omega arith;
}

-- From a new guard of any limits, whatever requests are admitted, shed and finished, in any order,
-- the global counter is the number of requests being served, each tenant's counter is the number
-- of its requests, and neither passes its cap where the cap is positive.
pub Reach-IsAccurate :
    (gc tc : ℤ) (tcs : Dict ℤ) {u : Served} → Reach (start gc tc tcs) u → IsAccurate u
Reach-IsAccurate gc tc tcs r = Reach-IsAccurate_from (start-IsAccurate gc tc tcs) r
