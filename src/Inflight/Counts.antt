-- ===== src/Inflight/Counts.antt =====
-- How the guard's methods move the counter of each tenant, as equations.
use sovereign_rag_gateway.Prelude.{
  Bool, ℕ, ◌<◌, ◌↔◌, ◌+◌, ◌-◌, ◌≡◌, String, ◌&&◌, arith, str_eq, eq_iff, ltb, leb, some, true,
  false, not, if◌then◌else◌, Option, Bool-cases, inl, inr,
}
use sovereign_rag_gateway.Prelude.Dict.{Dict, get_or, get-put, get-pop}
use sovereign_rag_gateway.Inflight.{
  Guard, Reason, touch, acquire_key, release_key, inflight_of, tenant_limit_for, tenant_key,
  try_acquire, release,
}

pub get_or-touch : (t k : String) (d : Dict ℕ) → get_or k 0 (touch t d) ≡ get_or k 0 d
unfolding touch
get_or-touch t k d = ground (arith, get-put t k 0 d, eq_iff t k)

-- An admitted request adds one to its tenant's counter, and no method touches another's.
pub inflight_of-acquire_key :
    (t k : String) (g : Guard)
    → inflight_of (acquire_key t g).1 k
      ≡ (if (acquire_key t g).0.allowed && str_eq t k then inflight_of g k + 1 else inflight_of g k)
unfolding acquire_key
inflight_of-acquire_key t k g = ground (
  arith,
  get_or-touch t k g.tenant_inflight,
  get-put t k (get_or t 0 g.tenant_inflight + 1) (touch t g.tenant_inflight),
  eq_iff t k,
)

pub global-acquire_key :
    (t : String) (g : Guard)
    → (acquire_key t g).1.global_inflight
      ≡ (if (acquire_key t g).0.allowed then g.global_inflight + 1 else g.global_inflight)
unfolding acquire_key
global-acquire_key t g = ground arith

pub inflight_of-release_key :
    (t k : String) (g : Guard)
    → inflight_of (release_key t g) k
      ≡ (if str_eq t k then inflight_of g k - 1 else inflight_of g k)
unfolding release_key
inflight_of-release_key t k g = ground (
  arith,
  get-put t k (get_or t 0 g.tenant_inflight - 1) g.tenant_inflight,
  get-pop t k g.tenant_inflight,
  eq_iff t k,
)

pub global-release_key :
    (t : String) (g : Guard) → (release_key t g).global_inflight ≡ g.global_inflight - 1
unfolding release_key
global-release_key t g = ground arith

-- An admitted request that is released leaves every counter as it found it.
pub release-try_acquire :
    (t k : String) (g : Guard)
    → (try_acquire t g).0.allowed ≡ true
    → (inflight_of (release t (try_acquire t g).1) k ≡ inflight_of g k)
      × ((release t (try_acquire t g).1).global_inflight ≡ g.global_inflight)
unfolding try_acquire release
release-try_acquire t k g h =
    let key = tenant_key t in
    (
      ground (
        arith,
        inflight_of-release_key key k (acquire_key key g).1,
        inflight_of-acquire_key key k g,
      ),
      ground (arith, global-release_key key (acquire_key key g).1, global-acquire_key key g),
    )

-- The two tests of `try_acquire`, each for a cap that is set and reached.
abbrev pub full : ℕ → ℕ → Bool
full limit current = ltb 0 limit && leb limit current

acquire_key-allowed :
    (t : String) (g : Guard)
    → (acquire_key t g).0.allowed
      ≡ not (full g.global_limit g.global_inflight)
        && not (full (tenant_limit_for g t) (inflight_of g t))
unfolding acquire_key
acquire_key-allowed t g = ground arith

acquire_key-reason :
    (t : String) (g : Guard)
    → (acquire_key t g).0.allowed ≡ false
    → (acquire_key t g).0.reason
      ≡ some (
          if full g.global_limit g.global_inflight
          then Reason.global_limit
          else Reason.tenant_limit)
unfolding acquire_key
acquire_key-reason t g h = ground arith

-- A request is admitted exactly when no positive cap is reached, the global one or its tenant's.
-- A refused request changes no counter, and its reason is the global cap where that is reached.
pub try_acquire-allowed :
    (t : String) (g : Guard)
    → ((try_acquire t g).0.allowed ≡ true ↔ (
        (0 < g.global_limit → g.global_inflight < g.global_limit)
        × (0 < tenant_limit_for g (tenant_key t)
            → inflight_of g (tenant_key t) < tenant_limit_for g (tenant_key t))))
      × ((try_acquire t g).0.allowed ≡ false
          → ((k : String) → inflight_of (try_acquire t g).1 k ≡ inflight_of g k)
            × ((try_acquire t g).1.global_inflight ≡ g.global_inflight)
            × ((try_acquire t g).0.reason
                ≡ some (
                    if full g.global_limit g.global_inflight
                    then Reason.global_limit
                    else Reason.tenant_limit)))
unfolding try_acquire
try_acquire-allowed t g =
    let key = tenant_key t in
    (
      (
        λ a. (
          λ p. ground (arith, acquire_key-allowed key g),
          λ p. ground (arith, acquire_key-allowed key g),
        ),
        λ r. ground (arith, acquire_key-allowed key g),
      ),
      λ a. (
        λ k. ground (arith, inflight_of-acquire_key key k g),
        ground (arith, global-acquire_key key g),
        acquire_key-reason key g a,
      ),
    )

-- A guard that has given back what it had admitted, and else kept what it had refused, has the counts
-- that it had before.
pub restored :
    (t : String) (guard : Guard) (end : Option Guard)
    → ((try_acquire t guard).0.allowed ≡ true → end ≡ some (release t (try_acquire t guard).1))
    → ((try_acquire t guard).0.allowed ≡ false → end ≡ some (try_acquire t guard).1)
    → (after : Guard) × (end ≡ some after)
      × ((k : String) → inflight_of after k ≡ inflight_of guard k)
      × (after.global_inflight ≡ guard.global_inflight)
restored t guard end admitted refused = elim (Bool-cases (try_acquire t guard).0.allowed) [
  | inl y ↦ (
    release t (try_acquire t guard).1,
    admitted y,
    λ k. (release-try_acquire t k guard y).0,
    (release-try_acquire t t guard y).1,
  )
  | inr n ↦
      let same = (try_acquire-allowed t guard).1 n in
      ((try_acquire t guard).1, refused n, λ k. same.0 k, same.1)
]
