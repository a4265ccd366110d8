-- ===== src/Budget/Window.antt =====
-- The tracker against a ledger that never forgets: pruning loses nothing that a later call counts.
use sovereign_rag_gateway.Prelude.{
  ℕ, ◌+◌, ◌-◌, ◌≤◌, ◌≡◌, refl, String, ◌&&◌, List, [], ◌∷◌, ◌++◌, not, arith, leb, str_eq, eq_iff,
  if◌then◌else◌, ◌∙◌, Bool-cases, inl, inr, keep, sum_of,
}
use sovereign_rag_gateway.Prelude.Dict.{Dict, get, get-put, get-pop}
use sovereign_rag_gateway.Budget.{
  UsageEntry, Bucket, prune, total_tokens, Tracker, bucket_of, cutoff_at, current_tokens, pruned,
  check, record_usage, usage, check_running, reset, set_bucket, remaining, summary,
}

-- The tokens of a bucket from a cutoff on.
abbrev pub total_from : ℕ → Bucket → ℕ
total_from cutoff entries = total_tokens (prune cutoff entries)

-- Pruning at an earlier cutoff changes no later total.
pub total_from-prune :
    (c d : ℕ) (entries : Bucket) → c ≤ d → total_from d (prune c entries) ≡ total_from d entries
total_from-prune c d [] h = refl
total_from-prune c d (e ∷ es) h = ground (arith, total_from-prune c d es h)

-- A call on the tracker, by what it does to the state.
pub data Call : Type 0 where
  checked : String → ℕ → Call
  recorded : String → ℕ → Call
  asked : String → Call
  checked_running : String → ℕ → Call
  asked_remaining : String → Call
  summarised : String → Call
  was_reset : String → Call

unfoldable pub apply : ℕ → Call → Tracker → Tracker
unfolding check record_usage usage check_running reset remaining summary
apply now (checked k n) t = (check now k n t).1
apply now (recorded k n) t = record_usage now k n t
apply now (asked k) t = (usage now k t).1
apply now (checked_running k n) t = (check_running now k n t).1
apply now (asked_remaining k) t = (remaining now k t).1
apply now (summarised k) t = (summary now k t).1
apply now (was_reset k) t = reset k t

-- The ledger: every recorded usage since the tenant's last reset, the latest first.
pub record Spending : Type 0 where
  pub tenant : String
  pub at : ℕ
  pub tokens : ℕ

abbrev pub book : ℕ → Call → List Spending → List Spending
book now (recorded k n) ledger = record { tenant = k; at = now; tokens = n } ∷ ledger
book now (was_reset k) ledger = keep (λ s. not (str_eq s.tenant k)) ledger
book now _ ledger = ledger

-- What the tenant spent from the cutoff on.
abbrev pub spent : ℕ → String → List Spending → ℕ
spent cutoff k ledger =
    sum_of (λ s. if str_eq s.tenant k && leb cutoff s.at then s.tokens else 0) ledger

spent-reset :
    (c : ℕ) (k j : String) (ledger : List Spending)
    → spent c j (keep (λ s. not (str_eq s.tenant k)) ledger)
      ≡ (if str_eq k j then 0 else spent c j ledger)
spent-reset c k j [] = ground arith
spent-reset c k j (s ∷ ledger) =
    ground (arith, spent-reset c k j ledger, eq_iff k j, eq_iff s.tenant k, eq_iff s.tenant j)

-- From the cutoff on, the buckets total what the ledger says.
abbrev pub Agrees : ℕ → Tracker → List Spending → Type 0
Agrees c t ledger = (k : String) (d : ℕ) → c ≤ d → total_from d (bucket_of t k) ≡ spent d k ledger

pub bucket_of-set_bucket :
    (k j : String) (b : Bucket) (t : Tracker)
    → bucket_of (set_bucket k b t) j ≡ (if str_eq k j then b else bucket_of t j)
bucket_of-set_bucket k j b t = ground (arith, get-put k j b t.buckets)

pub total_from-snoc :
    (d : ℕ) (b : Bucket) (e : UsageEntry)
    → total_from d (b ++ e ∷ []) ≡ total_from d b + (if leb d e.timestamp then e.tokens else 0)
total_from-snoc d [] e = ground arith
total_from-snoc d (x ∷ b) e = ground (arith, total_from-snoc d b e)

module _ (c now : ℕ) (t : Tracker) (ledger : List Spending) (h : Agrees c t ledger) where
  pruned-Agrees :
      (k : String) → c ≤ cutoff_at t now → Agrees (cutoff_at t now) (pruned now k t) ledger
  pruned-Agrees k low j d le = rw bucket_of-set_bucket (elim (Bool-cases (str_eq k j)) [
    | inl same ↦ rw same (
        total_from-prune (cutoff_at t now) d (bucket_of t k) le
        ∙ rw ((eq_iff k j).0 same) (h j d (omega arith)))
    | inr other ↦ rw other (h j d (omega arith))
  ])

  recorded-Agrees :
      (k : String) (n : ℕ) → Agrees c (record_usage now k n t) (book now (recorded k n) ledger)
  unfolding record_usage
  recorded-Agrees k n j d le = rw bucket_of-set_bucket (
      ground (
        arith,
        total_from-snoc d (bucket_of t k) (record { timestamp = now; tokens = n }),
        h j d le,
        eq_iff k j,
      ))

  reset-Agrees : (k : String) → Agrees c (reset k t) (book now (was_reset k) ledger)
  unfolding reset
  reset-Agrees k j d le = ground (arith, get-pop k j t.buckets, spent-reset d k j ledger, h j d le)

window-apply : (now : ℕ) (call : Call) (t : Tracker) → (apply now call t).window ≡ t.window
unfolding apply
window-apply now (checked k n) t = refl
window-apply now call t = refl

Agrees-later :
    (c d : ℕ) (t : Tracker) (ledger : List Spending) → c ≤ d → Agrees c t ledger → Agrees d t ledger
Agrees-later c d t ledger h a k e le = a k e (omega arith)

apply-Agrees :
    (c now : ℕ) (call : Call) (t : Tracker) (ledger : List Spending)
    → c ≤ cutoff_at t now
    → Agrees c t ledger
    → Agrees (cutoff_at t now) (apply now call t) (book now call ledger)
unfolding apply
apply-Agrees c now (checked k n) t ledger low h = pruned-Agrees c now t ledger h k low
apply-Agrees c now (recorded k n) t ledger low h =
    Agrees-later c _ (record_usage now k n t) (book now (recorded k n) ledger) low
      (recorded-Agrees c now t ledger h k n)
apply-Agrees c now (asked k) t ledger low h = pruned-Agrees c now t ledger h k low
apply-Agrees c now (checked_running k n) t ledger low h = pruned-Agrees c now t ledger h k low
apply-Agrees c now (asked_remaining k) t ledger low h = pruned-Agrees c now t ledger h k low
apply-Agrees c now (summarised k) t ledger low h = pruned-Agrees c now t ledger h k low
apply-Agrees c now (was_reset k) t ledger low h =
    Agrees-later c _ (reset k t) (book now (was_reset k) ledger) low
      (reset-Agrees c now t ledger h k)

-- Calls with their times, in order.
unfoldable pub run : List (ℕ × Call) → Tracker → Tracker
run [] t = t
run ((now, call) ∷ calls) t = run calls (apply now call t)

abbrev pub ledger_of : List (ℕ × Call) → List Spending → List Spending
ledger_of [] ledger = ledger
ledger_of ((now, call) ∷ calls) ledger = ledger_of calls (book now call ledger)

-- The clock does not go back from `last`, over the calls, to `end`.
abbrev pub IsTimed : ℕ → List (ℕ × Call) → ℕ → Type 0
IsTimed last [] end = last ≤ end
IsTimed last ((now, call) ∷ calls) end = (last ≤ now) × IsTimed now calls end

run-Agrees :
    (w last end : ℕ) (calls : List (ℕ × Call)) (t : Tracker) (ledger : List Spending)
    → t.window ≡ w
    → IsTimed last calls end
    → Agrees (last - w) t ledger
    → Agrees (end - w) (run calls t) (ledger_of calls ledger) × ((run calls t).window ≡ w)
unfolding run
run-Agrees w last end [] t ledger e timed h = (Agrees-later _ _ t ledger (omega arith) h, e)
run-Agrees w last end ((now, call) ∷ calls) t ledger e timed h =
    run-Agrees w now end calls (apply now call t) (book now call ledger)
      (window-apply now call t ∙ e) timed.1
      (Agrees-later _ _ (apply now call t) (book now call ledger) (omega (arith, e))
        (apply-Agrees (last - w) now call t ledger (omega (arith, timed.0, e)) h))

-- A tracker with no bucket.
abbrev pub fresh : ℕ → ℕ → Dict ℕ → Tracker
fresh default_ceiling window ceilings = record {
  default_ceiling = default_ceiling;
  window = window;
  tenant_ceilings = ceilings;
  buckets = [];
}

-- Whatever calls a new tracker has had, in the order of the clock, what it counts for a tenant is
-- the sum of all tokens recorded for the tenant since its last reset and inside the window.
pub current_tokens-eq-spent :
    (ceiling window : ℕ) (ceilings : Dict ℕ) (calls : List (ℕ × Call)) (now : ℕ) (k : String)
    → IsTimed 0 calls now
    → current_tokens now k (run calls (fresh ceiling window ceilings))
      ≡ spent (now - window) k (ledger_of calls [])
current_tokens-eq-spent ceiling window ceilings calls now k timed =
    let done =
      run-Agrees window 0 now calls (fresh ceiling window ceilings) [] refl timed
        (λ j d le. unfold get in refl) in
    rw done.1 (done.0 k (now - window) (omega arith))
