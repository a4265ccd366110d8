-- ===== src/Budget/Redis/Spent.antt =====
-- Runs of the tracker on Redis: what it reads against what was spent. The calls of a run have the
-- server's answers; a time does not lie before the one of the call before.
use sovereign_rag_gateway.Prelude.{
  ℕ, suc, ◌+◌, ◌-◌, ◌≤◌, ◌≡◌, refl, sym, ap, ◌∙◌, String, Bool, true, false, Option, some, none,
  List, [], ◌∷◌, Bool-cases, inl, inr, Option-cases, ◌↔◌, ◌⊎◌, arith, leb, ltb, str_eq, eq_refl,
  All, sum_of, if◌then◌else◌,
}
use sovereign_rag_gateway.Prelude.Text.Decimal.{code_points, NoColon}
use sovereign_rag_gateway.Budget.Window.{Spending, spent}
use sovereign_rag_gateway.Budget.Redis.{
  Server, RedisTracker, key_of, member_tokens, total_of, member_text, current_usage, redis_record,
  redis_check, redis_check_running, verdict, passed, backend_error, redis_ceiling_for,
}
use sovereign_rag_gateway.Budget.Redis.SortedSets.{SortedSets, total, read_total}
use sovereign_rag_gateway.Budget.Redis.Tracking.{
  Tracks, set_of, elapse-Tracks, removed-Tracks, added-Tracks,
}

read_result :
    (ok : Bool) (o : Option (List String)) (n : ℕ)
    → (if ok then total_of o else none) ≡ some n
    → (ok ≡ true)
      × (members : List String) × (o ≡ some members)
      × (sum_of member_tokens members ≡ n)
read_result true (some members) n h = (refl, members, refl, ground arith)
read_result true none n h = cc
read_result false o n h = cc

verdict-passed :
    (t : RedisTracker) (k : String) (requested n : ℕ)
    → (verdict t k requested (some n) ≡ passed)
      ↔ (leb (n + requested) (redis_ceiling_for t k) ≡ true)
verdict-passed t k requested n = elim (Bool-cases (ltb (redis_ceiling_for t k) (n + requested))) [
  | inl over ↦ rw over (λ h. cc, λ fit. absurd (ground (arith, over, fit)))
  | inr under ↦ rw under (λ h. ground (arith, under), λ fit. refl)
]

module _ (sv : Server) (sets : SortedSets sv) (t : RedisTracker) where
  -- The server's keys after calls of the tracker that the server answered, with the time of the last
  -- and the ledger of what was recorded.
  pub data Reach : ℕ → sv.Keys → List Spending → Type 0 where
    unused : (now : ℕ) (s : sv.Keys) → ((k : String) → set_of sv sets t k s ≡ []) → Reach now s []
    was_read :
        (now u : ℕ) (s : sv.Keys) (ledger : List Spending) (k : String) (n : ℕ)
        → Reach now s ledger
        → now ≤ u
        → (current_usage sv t u k s).0 ≡ some n
        → Reach u (current_usage sv t u k s).1 ledger
    was_recorded :
        (now u : ℕ) (s : sv.Keys) (ledger : List Spending) (k stamp uuid : String) (n : ℕ)
        → Reach now s ledger
        → now ≤ u
        → All NoColon (code_points stamp)
        → All
            (λ e. str_eq e.1 (member_text stamp n uuid) ≡ false)
            (set_of sv sets t k (sv.elapse u s))
        → (redis_record sv t u k n stamp uuid s).0 ≡ true
        → Reach u
            (redis_record sv t u k n stamp uuid s).1
            (record { tenant = k; at = u; tokens = n } ∷ ledger)

  usage-Tracks :
      (now u : ℕ) (s : sv.Keys) (ledger : List Spending) (k : String) (n : ℕ)
      → Tracks sv sets t now s ledger
      → now ≤ u
      → (current_usage sv t u k s).0 ≡ some n
      → (n ≡ spent (suc (u - t.window_seconds)) k ledger)
        × Tracks sv sets t u (current_usage sv t u k s).1 ledger
  unfolding current_usage
  usage-Tracks now u s ledger k n h le e =
      let s0 = sv.elapse u s in
      let h0 = elapse-Tracks sv sets t now s ledger h u le in
      let c : ℕ = u - t.window_seconds in
      let (ok, members, answer, summed) =
        read_result (sv.zremrangebyscore (key_of t k) 0 c s0).0
          (sv.zrangebyscore (key_of t k) c (sv.zremrangebyscore (key_of t k) 0 c s0).1) n e in
      let s1 = (sv.zremrangebyscore (key_of t k) 0 c s0).1 in
      let listed = sets.ranged (key_of t k) c s1 members answer in
      let left = sets.removed (key_of t k) (key_of t k) 0 c s0 ok in
      let read : sum_of member_tokens members ≡ total (suc c) (set_of sv sets t k s0) =
        rw (listed, left, eq_refl (key_of t k)) (read_total c (set_of sv sets t k s0)) in
      (
        sym summed ∙ read ∙ h0.totals k (suc c) (omega arith),
        removed-Tracks sv sets t u s0 ledger h0 k ok,
      )

  Reach-Tracks :
      (now : ℕ) (s : sv.Keys) (ledger : List Spending)
      → t.window_seconds ≤ t.ttl_seconds
      → Reach now s ledger
      → Tracks sv sets t now s ledger
  unfolding redis_record
  Reach-Tracks now s ledger lasts (unused _ _ empty) = record {
    totals = λ k d lt. rw (empty k) refl;
    past = λ k. rw (empty k) tt;
    lasting = λ k u gone. rw (empty k) tt;
  }
  Reach-Tracks now s ledger lasts (was_read before _ s0 _ k n r le e) =
      (usage-Tracks before now s0 ledger k n (Reach-Tracks before s0 ledger lasts r) le e).1
  Reach-Tracks now s ledger lasts
        (was_recorded before _ s0 ledger0 k stamp uuid n r le plain new ok) =
      added-Tracks sv sets t now (sv.elapse now s0) ledger0
        (elapse-Tracks sv sets t before s0 ledger0 (Reach-Tracks before s0 ledger0 lasts r) now le)
        k stamp uuid n plain new ok lasts

  -- On a server that behaves as Redis documents, with keys that live a window at least, and after any
  -- calls that the server answered, with fresh members and a clock that does not go back: a usage that is
  -- read is what was recorded for the tenant less than a window ago, `check` admits a request just if it
  -- fits under the ceiling with that, and `check_running` says whether it fits. Where the server fails,
  -- `check` raises BudgetBackendError and `check_running` says no.
  pub redis_check-spent :
      (now u : ℕ) (s : sv.Keys) (ledger : List Spending) (k : String) (requested : ℕ)
      → t.window_seconds ≤ t.ttl_seconds
      → Reach now s ledger
      → now ≤ u
      → let used = spent (suc (u - t.window_seconds)) k ledger in
        let fit = leb (used + requested) (redis_ceiling_for t k) in
        (((current_usage sv t u k s).0 ≡ some used)
          × (((redis_check sv t u k requested s).0 ≡ passed) ↔ (fit ≡ true))
          × ((redis_check_running sv t u k requested s).0 ≡ fit))
        ⊎ (((current_usage sv t u k s).0 ≡ none)
            × ((redis_check sv t u k requested s).0 ≡ backend_error)
            × ((redis_check_running sv t u k requested s).0 ≡ false))
  unfolding redis_check redis_check_running
  redis_check-spent now u s ledger k requested lasts r le =
      elim (Option-cases (current_usage sv t u k s).0) [
        | inl failed ↦ inr (failed, rw failed refl, rw failed refl)
        | inr (n, e) ↦
            let same =
              (usage-Tracks now u s ledger k n (Reach-Tracks now s ledger lasts r) le e).0 in
            inl (e ∙ ap some same, rw (e, same) (verdict-passed t k requested _), rw (e, same) refl)
      ]
