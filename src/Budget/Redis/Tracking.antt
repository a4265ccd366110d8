-- ===== src/Budget/Redis/Tracking.antt =====
-- The budget in Redis against the ledger of what is spent: nothing that a later call counts is lost,
-- by removal or by expiry.
use sovereign_rag_gateway.Prelude.{
  ℕ, ◌+◌, ◌-◌, ◌≤◌, ◌<◌, ◌≡◌, refl, sym, ◌∙◌, String, true, false, not, ◌&&◌, List, ◌∷◌, ◌++◌, inl,
  inr, Bool-cases, arith, leb, leb→le, str_eq, eq_iff, if◌then◌else◌, All, All-map, All-keep, subst,
}
use sovereign_rag_gateway.Prelude.Text.Decimal.{code_points, NoColon}
use sovereign_rag_gateway.Budget.Window.{Spending, spent}
use sovereign_rag_gateway.Budget.Redis.{Server, RedisTracker, key_of, member_text}
use sovereign_rag_gateway.Budget.Redis.SortedSets.{
  ScoredMember, SortedSets, total, total-keep, total-old, total-insert, All-insert,
  member_tokens-member_text, key_of-eq,
}

module _ (sv : Server) (sets : SortedSets sv) (t : RedisTracker) where
  open sets use {scored, expired}

  abbrev pub set_of : String → sv.Keys → List ScoredMember
  set_of k s = scored (key_of t k) s

  -- The sets at a time: their tokens inside the window are those of the ledger, no entry is from the
  -- future, and a key that is gone at a time has only entries that are out of the window then.
  pub record Tracks (now : ℕ) (s : sv.Keys) (ledger : List Spending) : Type 0 where
    pub totals :
        (k : String) (d : ℕ) → now - t.window_seconds < d → total d (set_of k s) ≡ spent d k ledger
    pub past : (k : String) → All (λ e. e.0 ≤ now) (set_of k s)
    pub lasting :
        (k : String) (u : ℕ)
        → expired (key_of t k) s u ≡ true
        → All (λ e. e.0 + t.window_seconds ≤ u) (set_of k s)

  module _ (now : ℕ) (s : sv.Keys) (ledger : List Spending) (h : Tracks now s ledger) where
    pub elapse-Tracks : (u : ℕ) → now ≤ u → Tracks u (sv.elapse u s) ledger
    elapse-Tracks u le = record {
      totals = λ k d lt. elim (Bool-cases (expired (key_of t k) s u)) [
        | inl gone ↦
            let old = total-old d (set_of k s) (
              All-map (λ e. e.0 + t.window_seconds ≤ u) (λ e. e.0 < d) (λ e x. omega arith)
                (set_of k s) (h.lasting k u gone)) in
            rw (sets.elapsed (key_of t k) u s, gone) (sym old ∙ h.totals k d (omega arith))
        | inr there ↦ rw (sets.elapsed (key_of t k) u s, there) (h.totals k d (omega arith))
      ];
      past = λ k.
          let earlier =
            All-map (λ e. e.0 ≤ now) (λ e. e.0 ≤ u) (λ e x. omega arith) (set_of k s) (h.past k) in
          elim (Bool-cases (expired (key_of t k) s u)) [
            | inl gone ↦ rw (sets.elapsed (key_of t k) u s, gone) tt
            | inr there ↦ rw (sets.elapsed (key_of t k) u s, there) earlier
          ];
      lasting = λ k v gone. elim (sets.elapsed_expiry (key_of t k) u v s gone) [
        | inl empty ↦ rw empty tt
        | inr before ↦ elim (Bool-cases (expired (key_of t k) s u)) [
          | inl gone ↦ rw (sets.elapsed (key_of t k) u s, gone) tt
          | inr there ↦ rw (sets.elapsed (key_of t k) u s, there) (h.lasting k v before)
        ]
      ];
    }

    All-left :
        (k j : String)
        → let r = sv.zremrangebyscore (key_of t k) 0 (now - t.window_seconds) s in
          r.0 ≡ true → (P : ScoredMember → Type 0) → All P (set_of j s) → All P (set_of j r.1)
    All-left k j ok P all =
        rw (sets.removed (key_of t k) (key_of t j) 0 (now - t.window_seconds) s ok)
          (elim (Bool-cases (str_eq (key_of t k) (key_of t j))) [
            | inl same ↦ rw same (
                All-keep (λ e. not (leb 0 e.0 && leb e.0 (now - t.window_seconds))) (set_of j s) P
                  all)
            | inr other ↦ rw other all
          ])

    pub removed-Tracks :
        (k : String)
        → let r = sv.zremrangebyscore (key_of t k) 0 (now - t.window_seconds) s in
          r.0 ≡ true → Tracks now r.1 ledger
    removed-Tracks k ok = record {
      totals = λ j d lt.
          rw (sets.removed (key_of t k) (key_of t j) 0 (now - t.window_seconds) s ok)
            (elim (Bool-cases (str_eq (key_of t k) (key_of t j))) [
              | inl same ↦
                  rw same (total-keep (now - t.window_seconds) d (set_of j s) lt ∙ h.totals j d lt)
              | inr other ↦ rw other (h.totals j d lt)
            ]);
      past = λ j. All-left k j ok (λ e. e.0 ≤ now) (h.past j);
      lasting = λ j v gone.
          elim (sets.removed_expiry (key_of t k) (key_of t j) 0 (now - t.window_seconds) v s ok
            gone) [
              | inl empty ↦ rw empty tt
              | inr before ↦
                  All-left k j ok (λ e. e.0 + t.window_seconds ≤ v) (h.lasting j v before)
            ];
    }

    module _ (k stamp uuid : String) (n : ℕ) (plain : All NoColon (code_points stamp))
        (new : All (λ e. str_eq e.1 (member_text stamp n uuid) ≡ false) (set_of k s))
        (ok : (sv.zadd_expire now (key_of t k) (member_text stamp n uuid) now t.ttl_seconds s).0
          ≡ true) where
      abbrev member : String
      member = member_text stamp n uuid

      abbrev after : sv.Keys
      after = (sv.zadd_expire now (key_of t k) member now t.ttl_seconds s).1

      total-added :
          (d : ℕ)
          → now - t.window_seconds < d
          → total d (set_of k after) ≡ (if leb d now then n else 0) + spent d k ledger
      total-added d lt =
          let (xs, ys, was, is) = sets.added now (key_of t k) member now t.ttl_seconds s ok new in
          let rest : total d (xs ++ ys) ≡ spent d k ledger = rw (← was) (h.totals k d lt) in
          rw
            (
              is,
              total-insert d xs ys (now, member),
              member_tokens-member_text stamp uuid n plain,
              rest,
            )
            refl

      All-added :
          (P : ScoredMember → Type 0)
          → All P (set_of k s)
          → P (now, member)
          → All P (set_of k after)
      All-added P all p =
          let (xs, ys, was, is) = sets.added now (key_of t k) member now t.ttl_seconds s ok new in
          rw is (All-insert P xs ys (now, member) (rw (← was) all) p)

      elsewhere :
          (j : String)
          → str_eq k j ≡ false
          → (set_of j after ≡ set_of j s)
            × ((u : ℕ) → expired (key_of t j) after u ≡ expired (key_of t j) s u)
      elsewhere j other =
          sets.added_elsewhere now (key_of t k) (key_of t j) member now t.ttl_seconds s ok
            (key_of-eq t k j ∙ other)

      pub added-Tracks :
          t.window_seconds ≤ t.ttl_seconds
          → Tracks now after (record { tenant = k; at = now; tokens = n } ∷ ledger)
      added-Tracks lasts = record {
        totals = λ j d lt. elim (Bool-cases (str_eq k j)) [
          | inl same ↦ rw same (
              subst
                (λ i. total d (set_of i after) ≡ (if leb d now then n else 0) + spent d i ledger)
                ((eq_iff k j).0 same) (total-added d lt))
          | inr other ↦ rw (other, (elsewhere j other).0) (omega (arith, h.totals j d lt))
        ];
        past = λ j. elim (Bool-cases (str_eq k j)) [
          | inl same ↦
              rw (← (eq_iff k j).0 same) (All-added (λ e. e.0 ≤ now) (h.past k) (omega arith))
          | inr other ↦ rw (elsewhere j other).0 (h.past j)
        ];
        lasting = λ j v gone. elim (Bool-cases (str_eq k j)) [
          | inl same ↦
              let e = (eq_iff k j).0 same in
              let gone_k : expired (key_of t k) after v ≡ true =
                subst (λ i. expired (key_of t i) after v ≡ true) (sym e) gone in
              let late = leb→le (now + t.ttl_seconds) v (
                sym (sets.added_expiry now (key_of t k) member now t.ttl_seconds v s ok)
                ∙ gone_k) in
              rw (← e) (
                All-added (λ e. e.0 + t.window_seconds ≤ v)
                  (All-map (λ e. e.0 ≤ now) (λ e. e.0 + t.window_seconds ≤ v)
                    (λ e x. omega (arith, late)) (set_of k s) (h.past k))
                  (omega (arith, late)))
          | inr other ↦
              rw (elsewhere j other).0 (h.lasting j v (sym ((elsewhere j other).1 v) ∙ gone))
        ];
      }
