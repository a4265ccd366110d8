-- ===== src/Webhooks/Delivery.antt =====
-- Which POSTs a delivery makes, after which pauses, and what its result says of them.
use sovereign_rag_gateway.Prelude.{
  ℕ, zero, suc, ◌+◌, ◌-◌, ◌≤◌, ◌<◌, ◌≡◌, ◌⊎◌, refl, String, Bool, true, false, ◌&&◌, Option, none,
  some, List, [], ◌∷◌, not, arith, ltb, ◌==◌, ap, Bool-cases, inl, inr,
}
use mathlib.Core.Path.{subst}
use mathlib.Core.Option.{some-injective}
use sovereign_rag_gateway.Webhooks.{
  DeliveryResult, PostOutcome, response, http_error, other_exception, RetryPolicy, is_success,
  is_retryable, backoff, attempt_error, Delivered, after_pause, answered, gave_up, deliver_loop,
  deliver,
}

-- An outcome after which another attempt is made, if one is left.
abbrev pub retries : PostOutcome → Bool
retries (response s d) = not (is_success s) && is_retryable s
retries (http_error t) = true
retries other_exception = false

-- The pauses after so many attempts, from one on.
abbrev pub schedule : RetryPolicy → ℕ → ℕ → List ℕ
schedule p attempt zero = []
schedule p attempt (suc n) = backoff p attempt ∷ schedule p (attempt + 1) n

PostOutcome-cases :
    (o : PostOutcome)
    → ((s : ℕ) × (d : ℕ) × (o ≡ response s d))
      ⊎ ((t : String) × (o ≡ http_error t))
      ⊎ (o ≡ other_exception)
PostOutcome-cases (response s d) = inl (s, d, refl)
PostOutcome-cases (http_error t) = inr (inl (t, refl))
PostOutcome-cases other_exception = inr (inr refl)

module _ (p : RetryPolicy) (url event_type key : String) (post : ℕ → PostOutcome) where
  -- The result, by the outcome of the last attempt.
  abbrev pub Ending : ℕ → DeliveryResult → PostOutcome → Type 0
  Ending a r (response s d) =
      (r ≡ answered p url event_type key post a s d)
      × ((a ≡ p.max_retries) ⊎ (retries (response s d) ≡ false))
  Ending a r (http_error t) =
      (r ≡ gave_up p url event_type key post (some (attempt_error a t))) × (a ≡ p.max_retries)
  Ending a r other_exception = ⊥

  -- `a` is the last attempt of a delivery that began at `start` and came to `r`.
  pub record Explains (start : ℕ) (r : DeliveryResult) (pauses : List ℕ) : Type 0 where
    pub last : ℕ
    pub from_start : start ≤ last
    pub within : last ≤ p.max_retries
    pub retried : (b : ℕ) → start ≤ b → b < last → retries (post b) ≡ true
    pub paused : pauses ≡ schedule p start (last - start)
    pub ending : Ending last r (post last)

  -- Whatever result a delivery from `start` comes to, it is explained.
  abbrev Says : ℕ → Delivered → Type 0
  Says start x = (r : DeliveryResult) → x.result ≡ some r → Explains start r x.pauses

  stop_here :
      (start : ℕ) (r : DeliveryResult)
      → start ≤ p.max_retries
      → Ending start r (post start)
      → Says start (record { result = some r; pauses = [] })
  stop_here start r le e r' h = record {
    last = start;
    from_start = omega arith;
    within = le;
    retried = λ b h k. absurd (omega arith);
    paused = rw (let z : start - start ≡ 0 = omega arith in z) refl;
    ending = subst (λ q. Ending start q (post start)) (some-injective _ _ h) e;
  }

  one_more :
      (start : ℕ) (r : DeliveryResult) (pauses : List ℕ)
      → retries (post start) ≡ true
      → Explains (start + 1) r pauses
      → Explains start r (backoff p start ∷ pauses)
  one_more start r pauses again x = record {
    last = x.last;
    from_start = omega (arith, x.from_start);
    within = x.within;
    retried = λ b h k. elim (Bool-cases (b == start)) [
      | inl same ↦ rw (let e : b ≡ start = ground arith in e) again
      | inr later ↦ x.retried b (ground arith) k
    ];
    paused =
        rw (let e : x.last - start ≡ suc (x.last - (start + 1)) = omega (arith, x.from_start) in e)
          (ap (λ l. backoff p start ∷ l) x.paused);
    ending = x.ending;
  }

  again-Says :
      (start : ℕ) (x : Delivered)
      → retries (post start) ≡ true
      → Says (start + 1) x
      → Says start (after_pause (backoff p start) x)
  again-Says start x again says r h = one_more start r x.pauses again (says r h)

  response-Says :
      (left attempt s d : ℕ) (last_error : Option String)
      → attempt + suc left ≡ p.max_retries + 1
      → post attempt ≡ response s d
      → (attempt < p.max_retries
          → Says
              (attempt + 1)
              (deliver_loop p url event_type key post left (attempt + 1) last_error))
      → Says attempt (deliver_loop p url event_type key post (suc left) attempt last_error)
  unfolding deliver_loop
  response-Says left attempt s d last_error total e go_on =
      let last_or_final : not (is_success s) && ltb attempt p.max_retries && is_retryable s ≡ false
          → (attempt ≡ p.max_retries) ⊎ (retries (response s d) ≡ false) =
        λ n. elim (Bool-cases (ltb attempt p.max_retries)) [
          | inl below ↦ inr (ground arith)
          | inr top ↦ inl (ground arith)
        ] in
      elim (Bool-cases (not (is_success s) && ltb attempt p.max_retries && is_retryable s)) [
        | inl y ↦
            rw (e, deliver_loop)
              (rw y (again-Says attempt _ (rw e (ground arith)) (go_on (ground arith))))
        | inr n ↦
            rw (e, deliver_loop)
              (rw n (stop_here attempt _ (omega arith) (rw e (refl, last_or_final n))))
      ]

  -- The loop from an attempt, with this attempt and `left` more to make.
  loop-Says :
      (left attempt : ℕ) (last_error : Option String)
      → attempt + suc left ≡ p.max_retries + 1
      → Says attempt (deliver_loop p url event_type key post (suc left) attempt last_error)
  unfolding deliver_loop
  loop-Says zero attempt last_error total = elim (PostOutcome-cases (post attempt)) [
    | inl (s, d, e) ↦
        response-Says zero attempt s d last_error total e (λ below. absurd (omega arith))
    | inr (inl (t, e)) ↦
        let top : ltb attempt p.max_retries ≡ false = ground arith in
        rw (e, deliver_loop)
          (simp top (stop_here attempt _ (omega arith) (rw e (refl, omega arith))))
    | inr (inr e) ↦ rw (e, deliver_loop) (λ r h. absurd (ground arith))
  ]
  loop-Says (suc left) attempt last_error total = elim (PostOutcome-cases (post attempt)) [
    | inl (s, d, e) ↦
        response-Says (suc left) attempt s d last_error total e
          (λ below. loop-Says left (attempt + 1) last_error (omega arith))
    | inr (inl (t, e)) ↦
        let below : ltb attempt p.max_retries ≡ true = ground arith in
        rw (e, deliver_loop)
          (simp below (
            again-Says attempt _ (rw e refl)
              (loop-Says left (attempt + 1) (some (attempt_error attempt t)) (omega arith))))
    | inr (inr e) ↦ rw (e, deliver_loop) (λ r h. absurd (ground arith))
  ]

  pub deliver_explained :
      (r : DeliveryResult)
      → (deliver p url event_type key post).result ≡ some r
      → Explains 0 r (deliver p url event_type key post).pauses
  unfolding deliver
  deliver_explained r h = loop-Says p.max_retries 0 none (omega arith) r h

  Ending-url : (a : ℕ) (r : DeliveryResult) (o : PostOutcome) → Ending a r o → r.endpoint_url ≡ url
  Ending-url a r (response s d) h = ap (λ q. q.endpoint_url) h.0
  Ending-url a r (http_error t) h = ap (λ q. q.endpoint_url) h.0
  Ending-url a r other_exception h = absurd h

  pub endpoint_url-deliver :
      (r : DeliveryResult)
      → (deliver p url event_type key post).result ≡ some r
      → r.endpoint_url ≡ url
  endpoint_url-deliver r h =
      let x = deliver_explained r h in Ending-url x.last r (post x.last) x.ending
