-- ===== src/Webhooks/Replay/Counts.antt =====
-- Which rows scripts/replay_webhook_dead_letter.py picks, and what its counts add up to.
use native.Mathlib.Omega.{arith}
use mathlib.Core.Path.{◌≡◌, refl}
use sovereign_rag_gateway.Prelude.{
  ℕ, suc, ◌+◌, ◌-◌, ◌≤◌, max, String, Option, none, List, [], ◌∷◌, keep, take, leb, length,
  length-append, sum_of, inl, inr, Bool-cases, leb→le, le→leb,
}
use sovereign_rag_gateway.Prelude.Dict.{Dict, get, put, get_or, values}
use sovereign_rag_gateway.Prelude.Int.{pos_part}
use sovereign_rag_gateway.Prelude.Text.{strip}
use sovereign_rag_gateway.Webhooks.Replay.{
  Row, Outside, Tally, no_tally, Counted, nothing_yet, Options, ReplayFailure, normalized_types,
  is_wanted, consider, Outcome, unsent, delivered, undelivered, tally, count, replay_row,
  replay_rows, considered, replay_dead_letter,
}

-- A written key changes a sum over the values by its own share.
sum-put :
    (f : Tally → ℕ) (k : String) (t : Tally) (d : Dict Tally)
    → f no_tally ≡ 0
    → sum_of f (values (put k t d)) + f (get_or k no_tally d) ≡ sum_of f (values d) + f t
unfolding get put
sum-put f k t [] z = omega arith
sum-put f k t ((j, w) ∷ d) z = ground (arith, sum-put f k t d z)

-- What the counts come to: a row is delivered or fails, and the event types share the totals.
abbrev Balanced : ℕ → Counted → Type 0
Balanced n c =
    (c.succeeded + length c.failures ≡ n)
    × (c.attempted ≤ n)
    × (sum_of (λ t. t.attempted) (values c.by_event) ≡ c.attempted)
    × (sum_of (λ t. t.succeeded) (values c.by_event) ≡ c.succeeded)
    × (sum_of (λ t. t.failed) (values c.by_event) ≡ length c.failures)

abbrev failure_of : String → String → String → Option ℕ → ReplayFailure
failure_of k url reason status = record {
  event_type = k;
  endpoint_url = url;
  reason = reason;
  status_code = status;
}

count-Balanced :
    (n : ℕ) (k : String) (x : Outcome) (c : Counted) → Balanced n c → Balanced (suc n) (count k x c)
unfolding count
count-Balanced n k (unsent url reason) c h =
    let t = tally (unsent url reason) (get_or k no_tally c.by_event) in
    (
      omega (arith, length-append c.failures (failure_of k url reason none ∷ [])),
      omega arith,
      omega (arith, sum-put (λ t. t.attempted) k t c.by_event refl),
      omega (arith, sum-put (λ t. t.succeeded) k t c.by_event refl),
      omega (
        arith,
        length-append c.failures (failure_of k url reason none ∷ []),
        sum-put (λ t. t.failed) k t c.by_event refl,
      ),
    )
count-Balanced n k delivered c h =
    let t = tally delivered (get_or k no_tally c.by_event) in
    (
      omega arith,
      omega arith,
      omega (arith, sum-put (λ t. t.attempted) k t c.by_event refl),
      omega (arith, sum-put (λ t. t.succeeded) k t c.by_event refl),
      omega (arith, sum-put (λ t. t.failed) k t c.by_event refl),
    )
count-Balanced n k (undelivered url reason s) c h =
    let t = tally (undelivered url reason s) (get_or k no_tally c.by_event) in
    (
      omega (arith, length-append c.failures (failure_of k url reason s ∷ [])),
      omega arith,
      omega (arith, sum-put (λ t. t.attempted) k t c.by_event refl),
      omega (arith, sum-put (λ t. t.succeeded) k t c.by_event refl),
      omega (
        arith,
        length-append c.failures (failure_of k url reason s ∷ []),
        sum-put (λ t. t.failed) k t c.by_event refl,
      ),
    )

module _ (o : Outside) where
  open o use {Body}

  replay_rows-Balanced :
      (opts : Options) (rows : List (Row Body)) (n : ℕ) (c : Counted)
      → Balanced n c
      → Balanced (length rows + n) (replay_rows o opts rows c)
  unfolding replay_rows
  replay_rows-Balanced opts [] n c h = (omega (arith, h), omega (arith, h), h.2, h.3, h.4)
  replay_rows-Balanced opts (r ∷ rs) n c h =
      let e : suc (length rs) + n ≡ length rs + suc n = omega arith in
      rw e (
        replay_rows-Balanced opts rs (suc n) (count (strip r.event_type) (replay_row o opts r) c)
          (count-Balanced n (strip r.event_type) (replay_row o opts r) c h))

  consider-take :
      (types : List String) (limit : ℕ) (rows : List (Row Body)) (n : ℕ)
      → consider o types limit rows n ≡ take (suc (limit - (n + 1))) (keep (is_wanted o types) rows)
  unfolding consider
  consider-take types limit [] n = refl
  consider-take types limit (r ∷ rs) n = elim (Bool-cases (is_wanted o types r)) [
    | inr e ↦ rw e (consider-take types limit rs n)
    | inl e ↦ elim (Bool-cases (leb limit (n + 1))) [
      | inl f ↦
          let none_left : limit - (n + 1) ≡ 0 = omega (arith, leb→le limit (n + 1) f) in
          rw (e, f, none_left) refl
      | inr f ↦
          let some_left : limit - (n + 1) ≡ suc (limit - (n + 1 + 1)) =
            ground (arith, le→leb limit (n + 1)) in
          rw (e, f, consider-take types limit rs (n + 1), some_left) refl
    ]
  ]

  -- The script takes the first rows of the wanted event types, as many as `max_events` says, but one row
  -- also where `max_events` is zero or less.
  pub considered-take :
      (opts : Options) (rows : List (Row Body))
      → considered o opts rows
        ≡ take
            (max 1 (pos_part opts.max_events))
            (keep (is_wanted o (normalized_types o opts.event_types)) rows)
  unfolding considered
  considered-take opts rows =
      let e : max 1 (pos_part opts.max_events) ≡ suc (pos_part opts.max_events - (0 + 1)) =
        omega arith in
      rw e (consider-take (normalized_types o opts.event_types) (pos_part opts.max_events) rows 0)

  -- Each row that the script takes is delivered or stands among the failures, no more rows are sent
  -- than are taken, and the counts by event type add up to the totals.
  pub replay_dead_letter-accounts :
      (opts : Options) (rows : List (Row Body))
      → let s = replay_dead_letter o opts rows in
        (s.succeeded + s.failed ≡ s.considered_records)
        × (s.failed ≡ length s.failures)
        × (s.attempted ≤ s.considered_records)
        × (sum_of (λ t. t.attempted) (values s.by_event) ≡ s.attempted)
        × (sum_of (λ t. t.succeeded) (values s.by_event) ≡ s.succeeded)
        × (sum_of (λ t. t.failed) (values s.by_event) ≡ s.failed)
  unfolding replay_dead_letter
  replay_dead_letter-accounts opts rows =
      let picked = considered o opts rows in
      let b =
        replay_rows-Balanced opts picked 0 nothing_yet (refl, omega arith, refl, refl, refl) in
      (omega (arith, b), refl, omega (arith, b), b.2, b.3, b.4)
