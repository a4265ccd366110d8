-- ===== src/Budget/Admission.antt =====
-- What the answers of the tracker mean for the ceiling.
use sovereign_rag_gateway.Prelude.{
  ℕ, ◌+◌, ◌≤◌, ◌<◌, ◌≡◌, ◌↔◌, refl, ap, String, true, none, some, arith, str_eq, eq_iff,
  if◌then◌else◌, ◌∙◌, Bool-cases, inl, inr,
}
use sovereign_rag_gateway.Budget.{
  Tracker, BudgetExceeded, ceiling_for, bucket_of, cutoff_at, current_tokens, pruned, check,
  record_usage, check_running, summary, usage,
}
use sovereign_rag_gateway.Budget.Window.{
  bucket_of-set_bucket, total_from-prune, total_from-snoc, total_from,
}

-- `check` raises exactly when the tokens in the window and those requested pass the ceiling, and the
-- error carries them; `check_running` says yes exactly when they do not.
pub check_exact :
    (now : ℕ) (k : String) (n : ℕ) (t : Tracker)
    → ((check now k n t).0 ≡ none ↔ current_tokens now k t + n ≤ ceiling_for t k)
      × ((x : BudgetExceeded)
          → (check now k n t).0 ≡ some x
          → (x.tenant_id ≡ k)
            × (x.used ≡ current_tokens now k t)
            × (x.ceiling ≡ ceiling_for t k)
            × (x.window_seconds ≡ t.window)
            × (ceiling_for t k < current_tokens now k t + n))
      × ((check_running now k n t).0 ≡ true ↔ (check now k n t).0 ≡ none)
unfolding check check_running
check_exact now k n t = (
  (λ h. ground arith, λ h. ground arith),
  λ x h. (ground arith, ground arith, ground arith, ground arith, ground arith),
  (λ h. ground arith, λ h. ground arith),
)

current_tokens-pruned :
    (now later : ℕ) (k j : String) (t : Tracker)
    → now ≤ later
    → current_tokens later j (pruned now k t) ≡ current_tokens later j t
current_tokens-pruned now later k j t h = rw bucket_of-set_bucket (elim (Bool-cases (str_eq k j)) [
  | inl same ↦ rw same (
      total_from-prune (cutoff_at t now) (cutoff_at t later) (bucket_of t k) (omega arith)
      ∙ ap (λ i. total_from (cutoff_at t later) (bucket_of t i)) ((eq_iff k j).0 same))
  | inr other ↦ rw other refl
])

-- No question changes what is counted for any tenant, then or later.
pub questions_keep_usage :
    (now later : ℕ) (k j : String) (n : ℕ) (t : Tracker)
    → now ≤ later
    → (current_tokens later j (check now k n t).1 ≡ current_tokens later j t)
      × (current_tokens later j (check_running now k n t).1 ≡ current_tokens later j t)
      × (current_tokens later j (usage now k t).1 ≡ current_tokens later j t)
      × (current_tokens later j (summary now k t).1 ≡ current_tokens later j t)
unfolding check check_running usage summary
questions_keep_usage now later k j n t h =
    let same = current_tokens-pruned now later k j t h in (same, same, same, same)

-- Recording adds the tokens to the tenant's count, and to no other's.
pub current_tokens-record_usage :
    (now : ℕ) (k j : String) (n : ℕ) (t : Tracker)
    → current_tokens now j (record_usage now k n t)
      ≡ (if str_eq k j then current_tokens now j t + n else current_tokens now j t)
unfolding record_usage
current_tokens-record_usage now k j n t = rw bucket_of-set_bucket (
    ground (
      arith,
      total_from-snoc (cutoff_at t now) (bucket_of t k) (record { timestamp = now; tokens = n }),
      eq_iff k j,
    ))

-- The count of one tenant after a check and a record of its own.
own_count :
    (now : ℕ) (k : String) (n : ℕ) (t : Tracker)
    → current_tokens now k (record_usage now k n t) ≡ current_tokens now k t + n
own_count now k n t = rw (current_tokens-record_usage now k k n t) (ground (arith, eq_iff k k))

count-check :
    (now : ℕ) (k : String) (n : ℕ) (t : Tracker)
    → current_tokens now k (check now k n t).1 ≡ current_tokens now k t
count-check now k n t = (questions_keep_usage now now k k n t (omega arith)).0

ceiling-check :
    (now : ℕ) (k : String) (n : ℕ) (t : Tracker)
    → ceiling_for (check now k n t).1 k ≡ ceiling_for t k
unfolding check
ceiling-check now k n t = refl

ceiling-record_usage :
    (now : ℕ) (k : String) (n : ℕ) (t : Tracker)
    → ceiling_for (record_usage now k n t) k ≡ ceiling_for t k
unfolding record_usage
ceiling-record_usage now k n t = refl

-- A request whose check passed and that uses at most what it asked for keeps its tenant within the
-- ceiling, and the summary that follows says how much is left.
pub admitted_within_ceiling :
    (now : ℕ) (k : String) (asked used : ℕ) (t : Tracker)
    → (check now k asked t).0 ≡ none
    → used ≤ asked
    → let after = record_usage now k used (check now k asked t).1 in
      (current_tokens now k after ≤ ceiling_for after k)
      × ((summary now k after).0.used + (summary now k after).0.remaining ≡ ceiling_for t k)
unfolding summary
admitted_within_ceiling now k asked used t h le =
    let checked = (check now k asked t).1 in
    let after = record_usage now k used checked in
    let fits = (check_exact now k asked t).0.0 h in
    let count : current_tokens now k after ≡ current_tokens now k t + used =
      own_count now k used checked ∙ ap (λ m. m + used) (count-check now k asked t) in
    let ceiling : ceiling_for after k ≡ ceiling_for t k =
      ceiling-record_usage now k used checked ∙ ceiling-check now k asked t in
    (omega (arith, count, ceiling, fits), omega (arith, count, ceiling, fits))

-- The check reserves nothing: of two requests that are both checked before either is recorded, each
-- may pass alone, and the two together pass the ceiling.
pub two_checks_overrun :
    (now : ℕ) (k : String) (a b : ℕ) (t : Tracker)
    → current_tokens now k t + a ≤ ceiling_for t k
    → current_tokens now k t + b ≤ ceiling_for t k
    → ceiling_for t k < current_tokens now k t + a + b
    → let first = check now k a t in
      let second = check now k b first.1 in
      let after = record_usage now k b (record_usage now k a second.1) in
      (first.0 ≡ none) × (second.0 ≡ none) × (ceiling_for after k < current_tokens now k after)
two_checks_overrun now k a b t ha hb over =
    let first = check now k a t in
    let second = check now k b first.1 in
    let one = record_usage now k a second.1 in
    let counted : current_tokens now k second.1 ≡ current_tokens now k t =
      count-check now k b first.1 ∙ count-check now k a t in
    let capped : ceiling_for second.1 k ≡ ceiling_for t k =
      ceiling-check now k b first.1 ∙ ceiling-check now k a t in
    (
      (check_exact now k a t).0.1 ha,
      (check_exact now k b first.1).0.1
          (omega (arith, hb, count-check now k a t, ceiling-check now k a t)),
      omega (
        arith,
        own_count now k b one,
        own_count now k a second.1,
        counted,
        capped,
        ceiling-record_usage now k b one,
        ceiling-record_usage now k a second.1,
      ),
    )
