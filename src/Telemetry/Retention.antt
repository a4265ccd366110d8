-- ===== src/Telemetry/Retention.antt =====
-- What the collector keeps: the traces are those of the order list, in that order, and never more than
-- the limit.
use sovereign_rag_gateway.Prelude.{
  ℕ, suc, ◌≤◌, ◌≡◌, refl, ap, ◌∙◌, String, false, List, [], ◌∷◌, ◌++◌, str_eq, eq_iff, ltb, length,
  arith, Bool-cases, inl, inr, if◌then◌else◌,
}
use sovereign_rag_gateway.Prelude.Dict.{Dict, put, pop, get_or}
use sovereign_rag_gateway.Telemetry.{Span, Collector, has, evict, record_span}

abbrev pub keys {ℓ} : {V : Type ℓ} → Dict V → List String
keys [] = []
keys ((k, v) ∷ d) = k ∷ keys d

-- No trace is listed twice.
abbrev pub IsDistinct : List String → Type 0
IsDistinct [] = Unit {0}
IsDistinct (k ∷ ks) = (has k ks ≡ false) × IsDistinct ks

keys-put :
    {V : Type 0} (k : String) (v : V) (d : Dict V)
    → keys (put k v d) ≡ (if has k (keys d) then keys d else keys d ++ k ∷ [])
unfolding put
keys-put k v [] = refl
keys-put k v ((j, w) ∷ d) = elim (Bool-cases (str_eq j k)) [
  | inl e ↦ simp e refl
  | inr n ↦
      simp (n, keys-put k v d)
        (elim (Bool-cases (has k (keys d))) [ inl y ↦ simp y refl | inr m ↦ simp m refl ])
]

pop-absent : {V : Type 0} (k : String) (d : Dict V) → has k (keys d) ≡ false → pop k d ≡ d
unfolding pop
pop-absent k [] h = refl
pop-absent k ((j, w) ∷ d) h = elim (Bool-cases (str_eq j k)) [
  | inl e ↦ absurd (ground arith)
  | inr n ↦ simp n (ap (λ m. (j, w) ∷ m) (pop-absent k d (ground arith)))
]

keys-pop_first :
    {V : Type 0} (k : String) (d : Dict V) (ks : List String)
    → keys d ≡ k ∷ ks
    → has k ks ≡ false
    → keys (pop k d) ≡ ks
unfolding pop
keys-pop_first k [] ks h n = absurd (ground arith)
keys-pop_first k ((j, w) ∷ d) ks h n =
    let same : j ≡ k = ap (λ l. elim l [ [] ↦ j | x ∷ xs ↦ x ]) h in
    let rest : keys d ≡ ks = ap (λ l. elim l [ [] ↦ [] | x ∷ xs ↦ xs ]) h in
    let absent : has k (keys d) ≡ false = rw rest n in
    simp ((eq_iff j k).1 same) (rw (pop-absent k d absent) rest)

has-append :
    (j k : String) (ks : List String)
    → has j ks ≡ false
    → str_eq k j ≡ false
    → has j (ks ++ k ∷ []) ≡ false
has-append j k [] h n = ground arith
has-append j k (i ∷ ks) h n = ground (arith, has-append j k ks)

IsDistinct-append :
    (k : String) (ks : List String) → has k ks ≡ false → IsDistinct ks → IsDistinct (ks ++ k ∷ [])
IsDistinct-append k [] h d = (refl, tt)
IsDistinct-append k (j ∷ ks) h d = (
  has-append j k ks d.0 (ground (arith, eq_iff j k, eq_iff k j)),
  IsDistinct-append k ks (ground arith) d.1,
)

-- Where nothing is over the limit, nothing goes.
pub evict-eq_self :
    (max_traces : ℕ) (order : List String) (traces : Dict (List Span))
    → length order ≤ max_traces
    → evict max_traces order traces ≡ (order, traces)
unfolding evict
evict-eq_self max_traces [] traces h = refl
evict-eq_self max_traces (o ∷ order) traces h =
    let fits : ltb max_traces (suc (length order)) ≡ false = ground arith in simp fits refl

evict-IsDistinct :
    (max_traces : ℕ) (order : List String) (traces : Dict (List Span))
    → keys traces ≡ order
    → IsDistinct order
    → let (order', traces') = evict max_traces order traces in
      (keys traces' ≡ order') × IsDistinct order' × (length order' ≤ max_traces)
unfolding evict
evict-IsDistinct max_traces [] traces h d = (h, tt, omega arith)
evict-IsDistinct max_traces (o ∷ order) traces h d =
    elim (Bool-cases (ltb max_traces (suc (length order)))) [
      | inl y ↦ simp y (
          evict-IsDistinct max_traces order (pop o traces) (keys-pop_first o traces order h d.0)
            d.1)
      | inr n ↦ simp n (h, d, ground arith)
    ]

-- The traces are the ones of the order list, each once, and not more than the limit.
pub record IsSynced (c : Collector) : Type 0 where
  pub synced : keys c.traces ≡ c.trace_order
  pub distinct : IsDistinct c.trace_order
  pub bounded : length c.trace_order ≤ c.max_traces

abbrev listed : String → List String → List String
listed k order = if has k order then order else order ++ k ∷ []

listed-IsDistinct :
    (k : String) (order : List String) → IsDistinct order → IsDistinct (listed k order)
listed-IsDistinct k order d = elim (Bool-cases (has k order)) [
  | inl y ↦ rw y d
  | inr n ↦ rw n (IsDistinct-append k order n d)
]

pub record_span-IsSynced :
    (trace_id : String) (span : Span) (c : Collector)
    → IsSynced c
    → IsSynced (record_span trace_id span c).1
unfolding record_span
record_span-IsSynced trace_id span c s =
    let spans = get_or trace_id [] c.traces ++ span ∷ [] in
    let order = listed trace_id c.trace_order in
    let traces = put trace_id spans c.traces in
    let same : keys traces ≡ order =
      keys-put trace_id spans c.traces ∙ ap (listed trace_id) s.synced in
    let kept =
      evict-IsDistinct c.max_traces order traces same (listed-IsDistinct trace_id _ s.distinct) in
    record { synced = kept.0; distinct = kept.1; bounded = kept.2 }
