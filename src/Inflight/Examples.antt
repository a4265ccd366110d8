-- ===== src/Inflight/Examples.antt =====
-- The guard at concrete limits: at most two requests, and one for the tenant "a".
use sovereign_rag_gateway.Prelude.{
  ◌≡◌, ◌↔◌, ◌<◌, false, if◌then◌else◌, refl, String, true, some, [], ◌∷◌,
}
use sovereign_rag_gateway.Prelude.Dict.{Dict, get, put}
use sovereign_rag_gateway.Prelude.Int.{ℤ, pos}
use sovereign_rag_gateway.Inflight.{
  Guard, Reason, tenant_key, tenant_limit_for, init, try_acquire, inflight_of,
}
use sovereign_rag_gateway.Inflight.Counts.{full, try_acquire-allowed}
use sovereign_rag_gateway.Inflight.Sessions.{start, admit, here, next, IsAccurate, Reach-IsAccurate}

abbrev small : Guard
small = init (pos 2) (pos 0) (("a", pos 1) ∷ [])

abbrev one_a : Guard
one_a = (try_acquire "a" small).1

-- The tenant "a" is refused at its cap.
second_refused : (try_acquire "a" one_a).0.reason ≡ some Reason.tenant_limit
unfolding try_acquire init get put
second_refused = refl

abbrev limits : Dict ℤ
limits = ("a", pos 1) ∷ []

Reach-IsAccurate_example : IsAccurate (record { guard = one_a; active = "a" ∷ [] })
unfolding try_acquire init get
Reach-IsAccurate_example =
    Reach-IsAccurate (pos 2) (pos 0) limits
      (next here (admit "a" (start (pos 2) (pos 0) limits) refl))

try_acquire-allowed_example :
    ((try_acquire "a" one_a).0.allowed ≡ true ↔ (
      (0 < one_a.global_limit → one_a.global_inflight < one_a.global_limit)
      × (0 < tenant_limit_for one_a "a" → inflight_of one_a "a" < tenant_limit_for one_a "a")))
    × ((try_acquire "a" one_a).0.allowed ≡ false
        → ((k : String) → inflight_of (try_acquire "a" one_a).1 k ≡ inflight_of one_a k)
          × ((try_acquire "a" one_a).1.global_inflight ≡ one_a.global_inflight)
          × ((try_acquire "a" one_a).0.reason
              ≡ some (
                  if full one_a.global_limit one_a.global_inflight
                  then Reason.global_limit
                  else Reason.tenant_limit)))
unfolding tenant_key
try_acquire-allowed_example = try_acquire-allowed "a" one_a
