-- ===== src/Metrics/Histogram.antt =====
-- What a histogram holds after any observations, and what the output says of it.
use sovereign_rag_gateway.Prelude.{
  ℕ, ◌+◌, ◌*◌, ◌<◌, ◌≤◌, ◌≡◌, refl, ap, Option, none, some, List, [], ◌∷◌, arith, leb, ◌==◌,
  if◌then◌else◌, length, map, sum_of, All, Bool-cases, inl, inr,
}
use sovereign_rag_gateway.Metrics.{
  Series, series_eq, at, Metrics, no_metrics, latency_buckets, no_buckets, bump, observe_series,
  Line, bucket, bucket_inf, render_series,
}
use sovereign_rag_gateway.Metrics.Tables.{series_eq_iff, at-modify}

-- Observations of any series, the latest first.
pub observe_all : List (Series × ℕ) → Metrics → Metrics
observe_all [] m = m
observe_all ((s, v) ∷ obs) m = observe_series s v (observe_all obs m)

-- The values observed of one series.
abbrev pub values_of : Series → List (Series × ℕ) → List ℕ
values_of s [] = []
values_of s ((t, v) ∷ obs) = let rest = values_of s obs in if series_eq t s then v ∷ rest else rest

abbrev pub within : ℕ → ℕ → ℕ
within bound v = if leb v bound then 1 else 0

-- For each bound, how many of the values do not pass it.
abbrev pub tally : List ℕ → List ℕ → List ℕ
tally bounds vs = map (λ b. sum_of (within b) vs) bounds

bump-tally :
    (bounds : List ℕ) (v : ℕ) (vs : List ℕ)
    → bump bounds v (tally bounds vs) ≡ tally bounds (v ∷ vs)
unfolding bump
bump-tally [] v vs = refl
bump-tally (b ∷ bounds) v vs = ground (arith, bump-tally bounds v vs)

at-buckets :
    (obs : List (Series × ℕ)) (s : Series)
    → at no_buckets s (observe_all obs no_metrics).histogram_buckets
      ≡ tally latency_buckets (values_of s obs)
unfolding observe_all at observe_series
at-buckets [] s = refl
at-buckets ((t, v) ∷ obs) s = rw at-modify (elim (Bool-cases (series_eq t s)) [
  | inl e ↦
      rw (e, at-buckets obs t, bump-tally)
        (ap (λ u. tally latency_buckets (v ∷ values_of u obs)) ((series_eq_iff t s).0 e))
  | inr n ↦ rw n (at-buckets obs s)
])

at-counts :
    (obs : List (Series × ℕ)) (s : Series)
    → at 0 s (observe_all obs no_metrics).histogram_counts ≡ length (values_of s obs)
unfolding observe_all at observe_series
at-counts [] s = refl
at-counts ((t, v) ∷ obs) s = rw at-modify (elim (Bool-cases (series_eq t s)) [
  | inl e ↦
      rw (e, at-counts obs t)
        (omega (arith, ap (λ u. length (values_of u obs)) ((series_eq_iff t s).0 e)))
  | inr n ↦ rw n (at-counts obs s)
])

at-sums :
    (obs : List (Series × ℕ)) (s : Series)
    → at 0 s (observe_all obs no_metrics).histogram_sums ≡ sum_of (λ v. v) (values_of s obs)
unfolding observe_all at observe_series
at-sums [] s = refl
at-sums ((t, v) ∷ obs) s = rw at-modify (elim (Bool-cases (series_eq t s)) [
  | inl e ↦
      rw (e, at-sums obs t)
        (omega (arith, ap (λ u. sum_of (λ v. v) (values_of u obs)) ((series_eq_iff t s).0 e)))
  | inr n ↦ rw n (at-sums obs s)
])

-- After any observations, each series holds the number and the sum of its own values, and in each
-- bucket the number of them that do not pass the bucket's bound.
pub observe_all_exact :
    (obs : List (Series × ℕ)) (s : Series)
    → let m = observe_all obs no_metrics in
      (at no_buckets s m.histogram_buckets ≡ tally latency_buckets (values_of s obs))
      × (at 0 s m.histogram_counts ≡ length (values_of s obs))
      × (at 0 s m.histogram_sums ≡ sum_of (λ v. v) (values_of s obs))
observe_all_exact obs s = (at-buckets obs s, at-counts obs s, at-sums obs s)

-- The sample of a bucket, by its label `le`, and of the bucket `+Inf`.
abbrev pub bucket_sample : ℕ → List Line → Option ℕ
bucket_sample bound [] = none
bucket_sample bound (bucket s b n ∷ ls) = if b == bound then some n else bucket_sample bound ls
bucket_sample bound (_ ∷ ls) = bucket_sample bound ls

abbrev pub inf_sample : List Line → Option ℕ
inf_sample [] = none
inf_sample (bucket_inf s n ∷ ls) = some n
inf_sample (_ ∷ ls) = inf_sample ls

-- How many of the bounds a value does not pass.
abbrev pub bounds_above : List ℕ → ℕ → ℕ
bounds_above bounds v = sum_of (λ b. within b v) bounds

sum_of-zero : (vs : List ℕ) → sum_of (λ v. 0) vs ≡ 0
sum_of-zero [] = refl
sum_of-zero (v ∷ vs) = omega (arith, sum_of-zero vs)

sum_of-add : (f g : ℕ → ℕ) (vs : List ℕ) → sum_of (λ v. f v + g v) vs ≡ sum_of f vs + sum_of g vs
sum_of-add f g [] = refl
sum_of-add f g (v ∷ vs) = omega (arith, sum_of-add f g vs)

-- The same pairs of a bound and a value, counted by values and by bounds.
sum_of-tally :
    (bounds vs : List ℕ) → sum_of (bounds_above bounds) vs ≡ sum_of (λ n. n) (tally bounds vs)
sum_of-tally [] vs = sum_of-zero vs
sum_of-tally (b ∷ bounds) vs =
    omega (arith, sum_of-add (within b) (bounds_above bounds) vs, sum_of-tally bounds vs)

-- The output counts a value once for each bound that it does not pass: the last finite bucket, of
-- 10 s, shows the sum of those counts, where `+Inf` shows the number of values.
pub last_bucket_overcounts :
    (obs : List (Series × ℕ)) (s : Series)
    → let lines = render_series s (observe_all obs no_metrics) in
      (bucket_sample 1000000000 lines
        ≡ some (sum_of (bounds_above latency_buckets) (values_of s obs)))
      × (inf_sample lines ≡ some (length (values_of s obs)))
unfolding render_series
last_bucket_overcounts obs s =
    rw (at-buckets obs s, at-counts obs s)
      (ap some (omega (arith, sum_of-tally latency_buckets (values_of s obs))), refl)

within_one : (bound v : ℕ) → v ≤ bound → within bound v ≡ 1
within_one bound v h = ground arith

overcount-ge :
    (vs : List ℕ)
    → All (λ v. v ≤ 500000000) vs
    → 2 * length vs ≤ sum_of (bounds_above latency_buckets) vs
overcount-ge [] h = omega arith
overcount-ge (v ∷ vs) h = omega (
  arith,
  overcount-ge vs h.1,
  within_one 500000000 v h.0,
  within_one 1000000000 v (omega (arith, h.0)),
)

-- A series whose observations all took 5 s at most, and at least one, shows in its last finite
-- bucket at least twice the number of observations, which is what the bucket `+Inf` shows.
pub last_bucket-gt-inf :
    (obs : List (Series × ℕ)) (s : Series)
    → All (λ v. v ≤ 500000000) (values_of s obs)
    → 0 < length (values_of s obs)
    → let lines = render_series s (observe_all obs no_metrics) in
      (n : ℕ) × (i : ℕ) × (bucket_sample 1000000000 lines ≡ some n)
      × (inf_sample lines ≡ some i)
      × (2 * i ≤ n)
      × (i < n)
last_bucket-gt-inf obs s h k =
    let counts = last_bucket_overcounts obs s in
    (
      sum_of (bounds_above latency_buckets) (values_of s obs),
      length (values_of s obs),
      counts.0,
      counts.1,
      overcount-ge (values_of s obs) h,
      omega (arith, overcount-ge (values_of s obs) h),
    )
