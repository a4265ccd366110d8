-- ===== src/Metrics.antt =====
-- app/metrics.py: the in-process counters and histograms. Values are in units of 10^-8, the
-- precision of a cost, where the program has floats. A metric's nested dictionaries are one
-- table from a name and a label key; the order of names and keys in the output is not modelled.
pub mod Tables
pub mod Histogram
mod Examples
use sovereign_rag_gateway.Prelude.{
  ℕ, suc, ◌+◌, ◌-◌, ◌*◌, String, Bool, true, false, ◌&&◌, List, [], ◌∷◌, ◌++◌, leb, ltb, str_eq,
  if◌then◌else◌, length, map,
}
use sovereign_rag_gateway.Prelude.Dict.{Dict, put}
use sovereign_rag_gateway.Prelude.Text.{show_nat, str_le}

-- `LabelKey`: the sorted items of a label dictionary.
abbrev pub LabelKey : Type 0
LabelKey = List (String × String)

pub record Series : Type 0 where
  pub name : String
  pub labels : LabelKey

unfoldable pub labels_eq : LabelKey → LabelKey → Bool
labels_eq [] [] = true
labels_eq ((k, v) ∷ a) ((j, w) ∷ b) = str_eq k j && str_eq v w && labels_eq a b
labels_eq _ _ = false

unfoldable pub series_eq : Series → Series → Bool
unfolding labels_eq
series_eq s t = str_eq s.name t.name && labels_eq s.labels t.labels

abbrev pub Table : Type 0 → Type 0
Table V = List (Series × V)

module _ {V : Type 0} where
  -- `table[name][key]`, with the default of the inner dictionary.
  unfoldable pub at : V → Series → Table V → V
  at d s [] = d
  at d s ((t, v) ∷ r) = if series_eq t s then v else at d s r

  unfoldable pub modify : V → (V → V) → Series → Table V → Table V
  modify d f s [] = (s, f d) ∷ []
  modify d f s ((t, v) ∷ r) = if series_eq t s then (t, f v) ∷ r else (t, v) ∷ modify d f s r

-- `sorted(labels.items())`; a dictionary has no key twice, so the keys decide.
unfoldable pub insert_label : String × String → LabelKey → LabelKey
insert_label kv [] = kv ∷ []
insert_label kv (jw ∷ a) = if str_le kv.0 jw.0 then kv ∷ jw ∷ a else jw ∷ insert_label kv a

unfoldable pub label_key : Dict String → LabelKey
unfolding insert_label
label_key [] = []
label_key (kv ∷ d) = insert_label kv (label_key d)

pub record Metrics : Type 0 where
  pub counters : Table ℕ
  pub histogram_sums : Table ℕ
  pub histogram_counts : Table ℕ
  pub histogram_buckets : Table (List ℕ)

abbrev pub no_metrics : Metrics
no_metrics = record {
  counters = [];
  histogram_sums = [];
  histogram_counts = [];
  histogram_buckets = [];
}

-- `LATENCY_BUCKETS`, in 10^-8 seconds.
abbrev pub latency_buckets : List ℕ
latency_buckets =
    1000000 ∷ 2500000 ∷ 5000000 ∷ 10000000 ∷ 25000000 ∷ 50000000 ∷ 100000000 ∷ 250000000 ∷ 500000000
    ∷ 1000000000 ∷ []

abbrev pub no_buckets : List ℕ
no_buckets = map (λ b. 0) latency_buckets

abbrev pub series : String → Dict String → Series
series name labels = record { name = name; labels = label_key labels }

unfoldable pub inc_counter : String → Dict String → ℕ → Metrics → Metrics
inc_counter name labels value m = record m {
  counters = modify 0 (λ v. v + value) (series name labels) m.counters;
}

-- The loop over `LATENCY_BUCKETS`: one more in each bucket whose bound the value does not pass.
unfoldable pub bump : List ℕ → ℕ → List ℕ → List ℕ
bump [] value buckets = buckets
bump (bound ∷ bounds) value [] = []
bump (bound ∷ bounds) value (n ∷ buckets) =
    (if leb value bound then n + 1 else n) ∷ bump bounds value buckets

-- `observe_histogram` at a series.
unfoldable pub observe_series : Series → ℕ → Metrics → Metrics
observe_series s value m = record m {
  histogram_sums = modify 0 (λ v. v + value) s m.histogram_sums;
  histogram_counts = modify 0 (λ v. v + 1) s m.histogram_counts;
  histogram_buckets = modify no_buckets (bump latency_buckets value) s m.histogram_buckets;
}

unfoldable pub observe_histogram : String → Dict String → ℕ → Metrics → Metrics
unfolding observe_series
observe_histogram name labels value m = observe_series (series name labels) value m

-- A line of the output: a sample with its suffix, its label key and its value. The label `le` of a
-- bucket is kept apart: a bound, or `+Inf`.
pub data Line : Type 0 where
  bucket : Series → ℕ → ℕ → Line
  bucket_inf : Series → ℕ → Line
  total_sum : Series → ℕ → Line
  total_count : Series → ℕ → Line

-- The loop of `render_metrics` over the buckets of a series, with `cumulative` so far.
unfoldable pub bucket_lines : Series → List ℕ → List ℕ → ℕ → List Line
bucket_lines s [] buckets cumulative = []
bucket_lines s (bound ∷ bounds) [] cumulative = []
bucket_lines s (bound ∷ bounds) (n ∷ buckets) cumulative =
    bucket s bound (cumulative + n) ∷ bucket_lines s bounds buckets (cumulative + n)

-- What `render_metrics` writes for one series of a histogram.
unfoldable pub render_series : Series → Metrics → List Line
unfolding bucket_lines
render_series s m =
    bucket_lines s latency_buckets (at no_buckets s m.histogram_buckets) 0
    ++ (bucket_inf s (at 0 s m.histogram_counts)
        ∷ total_sum s (at 0 s m.histogram_sums)
        ∷ total_count s (at 0 s m.histogram_counts)
        ∷ [])

-- The arguments of `record_request`.
pub record Request : Type 0 where
  pub endpoint : String
  pub provider : String
  pub model : String
  pub policy_decision : String
  pub status_code : ℕ
  pub latency : ℕ
  pub tokens_in : ℕ
  pub tokens_out : ℕ
  pub cost : ℕ
  pub redaction_count : ℕ
  pub provider_attempts : ℕ

-- One unit of a counter.
abbrev pub unit : ℕ
unit = 100000000

abbrev pub base_labels : Request → Dict String
base_labels r = ("endpoint", r.endpoint) ∷ ("provider", r.provider) ∷ ("model", r.model) ∷ []

-- `if value > 0: inc_counter(...)`
unfoldable pub inc_positive : String → Dict String → ℕ → Metrics → Metrics
inc_positive name labels value m = if ltb 0 value then inc_counter name labels value m else m

unfoldable pub record_request : Request → Metrics → Metrics
record_request r m =
    let m1 =
      inc_counter "srg_requests_total" (put "status" (show_nat r.status_code) (base_labels r)) unit
        m in
    let m2 =
      inc_counter "srg_policy_decisions_total"
        (("endpoint", r.endpoint) ∷ ("decision", r.policy_decision) ∷ []) unit m1 in
    let m3 = observe_histogram "srg_request_duration_seconds" (base_labels r) r.latency m2 in
    let m4 =
      inc_positive "srg_tokens_total" (put "direction" "input" (base_labels r)) (r.tokens_in * unit)
        m3 in
    let m5 =
      inc_positive "srg_tokens_total" (put "direction" "output" (base_labels r))
        (r.tokens_out * unit) m4 in
    let m6 = inc_positive "srg_cost_usd_total" (base_labels r) r.cost m5 in
    let m7 =
      inc_positive "srg_redactions_total" (("endpoint", r.endpoint) ∷ []) (r.redaction_count * unit)
        m6 in
    inc_positive "srg_provider_fallbacks_total" (("provider", r.provider) ∷ [])
      ((r.provider_attempts - 1) * unit) m7
