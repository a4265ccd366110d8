-- ===== src/Webhooks/Dispatch.antt =====
-- A dispatch as a whole: one result for each subscribed endpoint, a bounded log, and a dead letter
-- for each delivery that failed.
use sovereign_rag_gateway.Prelude.{
  ◌-◌, ◌≤◌, ◌≡◌, ◌⊎◌, refl, ap, ap₂, sym, ◌∙◌, String, Bool, is_some, ◌&&◌, true, false, Option,
  none, some, List, [], ◌∷◌, ◌++◌, not, arith, if◌then◌else◌, keep, length, map, any_of,
  length-drop, append-nil, append_assoc, Bool-cases, Option-cases, inl, inr,
}
use mathlib.Core.Option
use sovereign_rag_gateway.Prelude.Int.{ℤ}
use sovereign_rag_gateway.Webhooks.DeadLetters.{
  FileLine, letter, Letter, Store, try_write, jsonl_store, write, prune_lines, retention,
}
use sovereign_rag_gateway.Webhooks.{
  EventType, event_name, Endpoint, DeliveryResult, Dispatcher, is_subscribed, should_fire,
  max_log_entries, trimmed, record_delivery, letter_of, write_dead_letter, World, settle, deliver,
  dispatch_loop, dispatch,
}
use sovereign_rag_gateway.Webhooks.Delivery.{endpoint_url-deliver}

abbrev urls : List DeliveryResult → List String
urls rs = map (λ r. r.endpoint_url) rs

map-eq-some :
    {A B : Type 0} (f : A → B) (o : Option A) (b : B)
    → Option.map f o ≡ some b
    → (a : A) × (o ≡ some a) × (b ≡ f a)
map-eq-some f none b h = absurd (ground arith)
map-eq-some f (some a) b h = (a, refl, ground arith)

length-trimmed : (log : List DeliveryResult) → length (trimmed log) ≤ max_log_entries
length-trimmed log = ground (arith, length-drop (length log - max_log_entries) log)

module _ (w : World) (event_type : EventType) where
  abbrev subscribed : List Endpoint → List String
  subscribed eps = map (λ ep. ep.url) (keep (is_subscribed event_type) eps)

  abbrev sent_to : Dispatcher → Endpoint → Option DeliveryResult
  sent_to d ep =
      (deliver d.retry ep.url (event_name event_type) (w.digest ep.url w.body) (w.post ep)).result

  -- What a dispatch over the endpoints does where no exception ends it.
  abbrev Dispatched : List Endpoint → Dispatcher → List DeliveryResult → Dispatcher → Type 0
  Dispatched [] d rs end = (rs ≡ []) × (end ≡ d)
  Dispatched (ep ∷ eps) d rs end =
      (is_subscribed event_type ep ≡ false) × Dispatched eps d rs end
      ⊎ (is_subscribed event_type ep ≡ true)
        × ((r : DeliveryResult) × (rest : List DeliveryResult) × (sent_to d ep ≡ some r)
            × (rs ≡ r ∷ rest)
            × Dispatched eps (settle w r d) rest end)

  -- One endpoint of the loop, in its three cases.
  loop-skip :
      (ep : Endpoint) (eps : List Endpoint) (d : Dispatcher)
      → is_subscribed event_type ep ≡ false
      → dispatch_loop w event_type (ep ∷ eps) d ≡ dispatch_loop w event_type eps d
  unfolding dispatch_loop
  loop-skip ep eps d n = rw n refl

  loop-sent :
      (ep : Endpoint) (eps : List Endpoint) (d : Dispatcher) (r : DeliveryResult)
      → is_subscribed event_type ep ≡ true
      → sent_to d ep ≡ some r
      → dispatch_loop w event_type (ep ∷ eps) d ≡ (
          let (rest, end) = dispatch_loop w event_type eps (settle w r d) in
          (Option.map (λ rs. r ∷ rs) rest, end))
  unfolding dispatch_loop
  loop-sent ep eps d r y e = rw (y, e) refl

  loop-failed :
      (ep : Endpoint) (eps : List Endpoint) (d : Dispatcher)
      → is_subscribed event_type ep ≡ true
      → sent_to d ep ≡ none
      → dispatch_loop w event_type (ep ∷ eps) d ≡ (none, d)
  unfolding dispatch_loop
  loop-failed ep eps d y e = rw (y, e) refl

  loop-Dispatched :
      (eps : List Endpoint) (d : Dispatcher) (rs : List DeliveryResult)
      → (dispatch_loop w event_type eps d).0 ≡ some rs
      → Dispatched eps d rs (dispatch_loop w event_type eps d).1
  loop-Dispatched [] d rs h = unfold dispatch_loop in (ground arith, refl)
  loop-Dispatched (ep ∷ eps) d rs h = elim (Bool-cases (is_subscribed event_type ep)) [
    | inl y ↦ elim (Option-cases (sent_to d ep)) [
      | inl e ↦ absurd (let q = loop-failed ep eps d y e in cc)
      | inr (r, e) ↦
          let q = loop-sent ep eps d r y e in
          let (rest, f, g) =
            map-eq-some (λ ss. r ∷ ss) (dispatch_loop w event_type eps (settle w r d)).0 rs
              (sym (ap (λ x. x.0) q) ∙ h) in
          rw q (inr (y, (r, rest, e, g, loop-Dispatched eps (settle w r d) rest f)))
    ]
    | inr n ↦
        let q = loop-skip ep eps d n in
        rw q (inl (n, loop-Dispatched eps d rs (sym (ap (λ x. x.0) q) ∙ h)))
  ]

  urls-Dispatched :
      (eps : List Endpoint) (d : Dispatcher) (rs : List DeliveryResult) (end : Dispatcher)
      → Dispatched eps d rs end
      → urls rs ≡ subscribed eps
  urls-Dispatched [] d rs end h = ap urls h.0
  urls-Dispatched (ep ∷ eps) d rs end (inl (n, h)) = rw n (urls-Dispatched eps d rs end h)
  urls-Dispatched (ep ∷ eps) d rs end (inr (y, (r, rest, e, q, h))) =
      rw (y, q)
        (ap₂ ◌∷◌ (endpoint_url-deliver d.retry ep.url (event_name event_type) _ (w.post ep) r e)
          (urls-Dispatched eps (settle w r d) rest end h))

  none-subscribed :
      (eps : List Endpoint) (d : Dispatcher)
      → any_of (is_subscribed event_type) eps ≡ false
      → dispatch_loop w event_type eps d ≡ (some [], d)
  none-subscribed [] d h = unfold dispatch_loop in refl
  none-subscribed (ep ∷ eps) d h =
      loop-skip ep eps d (ground arith) ∙ none-subscribed eps d (ground arith)

  -- A dispatch that no exception ends has one result for each endpoint that is enabled and
  -- subscribed to the event, in their order; where `should_fire` says no, it does nothing.
  pub dispatch-urls :
      (d : Dispatcher)
      → ((rs : List DeliveryResult)
          → (dispatch w event_type d).0 ≡ some rs
          → map (λ r. r.endpoint_url) rs
            ≡ map (λ ep. ep.url) (keep (is_subscribed event_type) d.endpoints))
        × (should_fire event_type d ≡ false → dispatch w event_type d ≡ (some [], d))
  unfolding dispatch should_fire
  dispatch-urls d = (
    λ rs h. urls-Dispatched d.endpoints d rs _ (loop-Dispatched d.endpoints d rs h),
    none-subscribed d.endpoints d,
  )

  log-settle :
      (r : DeliveryResult) (d : Dispatcher) → length (settle w r d).delivery_log ≤ max_log_entries
  unfolding record_delivery
  log-settle r d = length-trimmed (
      (if r.success
        then d
        else write_dead_letter w.clock w.disk (letter_of w.timestamp w.body r) d).delivery_log
      ++ r ∷ [])

  log-loop :
      (eps : List Endpoint) (d : Dispatcher)
      → length d.delivery_log ≤ max_log_entries
      → length (dispatch_loop w event_type eps d).1.delivery_log ≤ max_log_entries
  log-loop [] d h = unfold dispatch_loop in h
  log-loop (ep ∷ eps) d h = elim (Bool-cases (is_subscribed event_type ep)) [
    | inl y ↦ elim (Option-cases (sent_to d ep)) [
      | inl e ↦ rw (loop-failed ep eps d y e) h
      | inr (r, e) ↦ rw (loop-sent ep eps d r y e) (log-loop eps (settle w r d) (log-settle r d))
    ]
    | inr n ↦ rw (loop-skip ep eps d n) (log-loop eps d h)
  ]

  -- The delivery log never holds more than 500 results, however a dispatch ends.
  pub dispatch-log_bounded :
      (d : Dispatcher)
      → length d.delivery_log ≤ max_log_entries
      → length (dispatch w event_type d).1.delivery_log ≤ max_log_entries
  unfolding dispatch
  dispatch-log_bounded d h = log-loop d.endpoints d h

  -- The deliveries that failed, and whose letter could be written.
  abbrev is_kept : DeliveryResult → Bool
  is_kept r = not r.success && not (is_some (w.disk (letter_of w.timestamp w.body r)))

  abbrev letters_of : List DeliveryResult → List FileLine
  letters_of rs = map (λ r. letter (letter_of w.timestamp w.body r)) (keep is_kept rs)

  module _
      (harmless : (l : Letter) (left : Store → Store)
        → w.disk l ≡ some left
        → (s : Store) → left s ≡ s) where
    store-settle :
        (r : DeliveryResult) (d : Dispatcher) (days : Option ℤ) (lines : List FileLine)
        → retention days ≡ none
        → d.dead_letter_store ≡ some (jsonl_store days lines)
        → (settle w r d).dead_letter_store ≡ some (jsonl_store days (lines ++ letters_of (r ∷ [])))
    unfolding record_delivery write_dead_letter try_write write
    store-settle r d days lines forever has = elim (Bool-cases r.success) [
      | inl y ↦ simp (y, append-nil) has
      | inr n ↦ elim (Option-cases (w.disk (letter_of w.timestamp w.body r))) [
        | inl works ↦
            simp (n, works)
              (rw (has, write_dead_letter) (rw (works, forever, prune_lines, write) refl))
        | inr (left, fails) ↦
            let same =
              harmless (letter_of w.timestamp w.body r) left fails (jsonl_store days lines) in
            simp (n, fails, append-nil) (rw (has, write_dead_letter) (rw (fails, same) refl))
      ]
    ]

    letters-cons :
        (r : DeliveryResult) (rest : List DeliveryResult)
        → letters_of (r ∷ []) ++ letters_of rest ≡ letters_of (r ∷ rest)
    letters-cons r rest = ground arith

    letters-Dispatched :
        (eps : List Endpoint) (d : Dispatcher) (rs : List DeliveryResult) (end : Dispatcher)
        (days : Option ℤ) (lines : List FileLine)
        → retention days ≡ none
        → d.dead_letter_store ≡ some (jsonl_store days lines)
        → Dispatched eps d rs end
        → end.dead_letter_store ≡ some (jsonl_store days (lines ++ letters_of rs))
    letters-Dispatched [] d rs end days lines forever has h = rw (h.1, h.0, append-nil) has
    letters-Dispatched (ep ∷ eps) d rs end days lines forever has (inl (n, h)) =
        letters-Dispatched eps d rs end days lines forever has h
    letters-Dispatched (ep ∷ eps) d rs end days lines forever has (inr (y, (r, rest, e, q, h))) =
        rw q (
          letters-Dispatched eps (settle w r d) rest end days (lines ++ letters_of (r ∷ [])) forever
            (store-settle r d days lines forever has) h
          ∙ ap (λ l. some (jsonl_store days l))
              (append_assoc lines (letters_of (r ∷ [])) (letters_of rest)
                ∙ ap (λ l. lines ++ l) (letters-cons r rest)))

    -- With a JSONL store that keeps its letters for ever, and where a write that raises leaves the file as it
    -- was, a dispatch that no exception ends appends one letter for each delivery that failed and whose
    -- write did not raise, in order, and nothing else.
    pub dispatch-letters :
        (d : Dispatcher) (rs : List DeliveryResult) (days : Option ℤ) (lines : List FileLine)
        → retention days ≡ none
        → d.dead_letter_store ≡ some (jsonl_store days lines)
        → (dispatch w event_type d).0 ≡ some rs
        → (dispatch w event_type d).1.dead_letter_store
          ≡ some (
              jsonl_store days (
                lines
                ++ map
                    (λ r. letter (letter_of w.timestamp w.body r))
                    (keep
                      (λ r.
                        not r.success && not (is_some (w.disk (letter_of w.timestamp w.body r))))
                      rs)))
    unfolding dispatch
    dispatch-letters d rs days lines forever has h =
        letters-Dispatched d.endpoints d rs _ days lines forever has
          (loop-Dispatched d.endpoints d rs h)
