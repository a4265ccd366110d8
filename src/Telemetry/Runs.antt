-- ===== src/Telemetry/Runs.antt =====
-- What a recorded span changes for a reader, and the collector over a run of its methods.
use sovereign_rag_gateway.Prelude.{
  ℕ, suc, ◌≤◌, ◌<◌, ◌≡◌, refl, ap, String, Bool, true, false, not, ◌&&◌, List, [], ◌∷◌, ◌++◌,
  str_eq, eq_iff, ltb, ◌==◌, length, arith, ==→eq, ==→ne, Bool-cases, inl, inr, length-append,
  if◌then◌else◌,
}
use sovereign_rag_gateway.Prelude.Dict.{Dict, put, pop, get_or, get-put, get-pop}
use sovereign_rag_gateway.Telemetry.{
  Span, Collector, new_collector, has, evict, record_span, get_trace, clear,
}
use sovereign_rag_gateway.Telemetry.Retention.{IsSynced, evict-eq_self, record_span-IsSynced}

-- The trace that has been listed longest.
abbrev pub is_oldest : String → List String → Bool
is_oldest k [] = false
is_oldest k (o ∷ order) = str_eq o k

-- A new trace takes the place of the oldest one.
abbrev pub takes_place : String → Collector → Bool
takes_place trace_id c = not (has trace_id c.trace_order) && length c.trace_order == c.max_traces

evict-full :
    (max_traces : ℕ) (o : String) (order : List String) (traces : Dict (List Span))
    → length order ≡ max_traces
    → evict max_traces (o ∷ order) traces ≡ (order, pop o traces)
unfolding evict
evict-full max_traces o order traces h =
    let over : ltb max_traces (suc (length order)) ≡ true = ground arith in
    simp over (evict-eq_self max_traces order (pop o traces) (omega arith))

-- What is kept of the dictionary after one more trace.
evict-listed :
    (max_traces : ℕ) (t : String) (order : List String) (traces : Dict (List Span))
    → 0 < max_traces
    → length order ≤ max_traces
    → (evict max_traces (order ++ t ∷ []) traces).1 ≡ (
        if length order == max_traces
        then (elim order [ [] ↦ traces | o ∷ rest ↦ pop o traces ])
        else traces)
evict-listed max_traces t [] traces p h =
    let kept = ap (λ x. x.1) (evict-eq_self max_traces (t ∷ []) traces (omega arith)) in
    elim (Bool-cases (0 == max_traces)) [ inl y ↦ rw y kept | inr n ↦ rw n kept ]
evict-listed max_traces t (o ∷ order) traces p h =
    let one_more = length-append order (t ∷ []) in
    elim (Bool-cases (suc (length order) == max_traces)) [
      | inl y ↦ rw y (
          ap (λ x. x.1)
            (evict-full max_traces o (order ++ t ∷ []) traces
              (omega (arith, one_more, ==→eq _ _ y))))
      | inr n ↦ rw n (
          ap (λ x. x.1)
            (evict-eq_self max_traces (o ∷ (order ++ t ∷ [])) traces
              (omega (arith, one_more, ==→ne _ _ n))))
    ]

get-listed :
    (k t : String) (spans : List Span) (order : List String) (traces : Dict (List Span))
    (full : Bool)
    → has t order ≡ false
    → get_or k [] (
        if full
        then (elim order [ [] ↦ put t spans traces | o ∷ rest ↦ pop o (put t spans traces) ])
        else put t spans traces)
      ≡ (if str_eq t k then spans else if full && is_oldest k order then [] else get_or k [] traces)
get-listed k t spans [] traces full absent = ground (arith, get-put t k spans traces, eq_iff t k)
get-listed k t spans (o ∷ rest) traces full absent = ground (
  arith,
  get-put t k spans traces,
  get-pop o k (put t spans traces),
  eq_iff t k,
  eq_iff o k,
  eq_iff o t,
)

-- A recorded span is the last of its trace, which has lost none of the spans before. Another trace is as
-- before, unless it is the oldest of a full collector and the trace of the span is new: then it is gone.
pub get_trace-record_span :
    (trace_id k : String) (span : Span) (c : Collector)
    → IsSynced c
    → 0 < c.max_traces
    → get_trace k (record_span trace_id span c).1 ≡ (
        if str_eq trace_id k
        then get_trace trace_id c ++ span ∷ []
        else if takes_place trace_id c && is_oldest k c.trace_order
        then []
        else get_trace k c)
unfolding get_trace record_span
get_trace-record_span trace_id k span c s p =
    let spans = get_or trace_id [] c.traces ++ span ∷ [] in
    let traces = put trace_id spans c.traces in
    elim (Bool-cases (has trace_id c.trace_order)) [
      | inl y ↦
          rw (y, ap (λ x. x.1) (evict-eq_self c.max_traces c.trace_order traces s.bounded))
            (ground (arith, get-put trace_id k spans c.traces, eq_iff trace_id k))
      | inr n ↦
          rw (n, evict-listed c.max_traces trace_id c.trace_order traces p s.bounded)
            (get-listed k trace_id spans c.trace_order c.traces
              (length c.trace_order == c.max_traces) n)
    ]

-- The methods of the collector that change it.
pub data Action : Type 0 where
  records : (trace_id : String) → Span → Action
  clears : Action

abbrev pub act : Action → Collector → Collector
act (records trace_id span) c = (record_span trace_id span c).1
act clears c = clear c

abbrev pub run : List Action → Collector → Collector
run [] c = c
run (a ∷ more) c = run more (act a c)

run-IsSynced : (actions : List Action) (c : Collector) → IsSynced c → IsSynced (run actions c)
unfolding clear
run-IsSynced [] c s = s
run-IsSynced (records trace_id span ∷ more) c s =
    run-IsSynced more _ (record_span-IsSynced trace_id span c s)
run-IsSynced (clears ∷ more) c s =
    run-IsSynced more _ (record { synced = refl; distinct = tt; bounded = omega arith })

-- After any run of the methods on a new collector, the traces that it holds are those of the order list,
-- in that order and each once, and they are not more than the limit.
pub collector-IsSynced :
    (max_traces : ℕ) (exports : Bool) (root : String) (actions : List Action)
    → IsSynced (run actions (new_collector max_traces exports root))
collector-IsSynced max_traces exports root actions =
    run-IsSynced actions _ (record { synced = refl; distinct = tt; bounded = omega arith })
