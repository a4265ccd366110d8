-- ===== src/Budget/Redis/Examples.antt =====
-- A server that keeps a set and a deadline for each key, and a tracker that has recorded once.
use sovereign_rag_gateway.Prelude.{
  ℕ, suc, ◌+◌, ◌-◌, ◌≡◌, refl, sym, String, true, false, not, ◌&&◌, ◌⊎◌, ◌↔◌, inr, some, none, List,
  [], ◌∷◌, ◌++◌, append-nil, leb, All, str_eq, eq_refl, if◌then◌else◌, keep, map, arith,
}
use sovereign_rag_gateway.Prelude.Text.Decimal.{code_points, NoColon}
use sovereign_rag_gateway.Budget.Window.{Spending, spent}
use sovereign_rag_gateway.Budget.Redis.{
  Server, RedisTracker, new_redis_tracker, member_text, member_tokens, current_usage, redis_record,
  redis_check, redis_check_running, passed, backend_error, redis_ceiling_for,
}
use sovereign_rag_gateway.Budget.Redis.SortedSets.{
  ScoredMember, SortedSets, member_tokens-member_text,
}
use sovereign_rag_gateway.Budget.Redis.Spent.{Reach, unused, was_recorded, redis_check-spent}

abbrev Stored : Type 0
Stored = String → ℕ × List ScoredMember

abbrev server : Server
server = record {
  Keys = Stored;
  elapse = λ t s k. ((s k).0, if leb (s k).0 t then [] else (s k).1);
  zremrangebyscore = λ k lo hi s. (
    true,
    λ j. (
      (s j).0,
      if str_eq k j then keep (λ e. not (leb lo e.0 && leb e.0 hi)) (s j).1 else (s j).1,
    ),
  );
  zrangebyscore = λ k lo s. some (map (λ e. e.1) (keep (λ e. leb lo e.0) (s k).1));
  zadd_expire = λ now k m score ttl s.
      (true, λ j. if str_eq k j then (now + ttl, (s j).1 ++ (score, m) ∷ []) else s j);
}

abbrev sets : SortedSets server
sets = record {
  scored = λ k s. (s k).1;
  expired = λ k s u. leb (s k).0 u;
  elapsed = λ k t s. refl;
  elapsed_expiry = λ k t u s h. inr h;
  removed = λ k j lo hi s ok. refl;
  removed_expiry = λ k j lo hi u s ok h. inr h;
  ranged = λ k lo s members h. cc;
  added =
      λ now k m score ttl s ok new. ((s k).1, [], sym (append-nil (s k).1), rw (eq_refl k) refl);
  added_expiry = λ now k m score ttl u s ok. rw (eq_refl k) refl;
  added_elsewhere = λ now k j m score ttl s ok other. (rw other refl, λ u. rw other refl);
}

abbrev tracker : RedisTracker
tracker = new_redis_tracker 100 50 [] "srg:budget" 10

abbrev no_keys : Stored
no_keys k = (0, [])

abbrev after_record : Stored
after_record = (redis_record server tracker 1000 "acme" 70 "1000.000000" "9f" no_keys).1

abbrev ledger : List Spending
ledger = record { tenant = "acme"; at = 1000; tokens = 70 } ∷ []

plain_stamp : All NoColon (code_points "1000.000000")
unfolding code_points
plain_stamp =
    (refl, (refl, (refl, (refl, (refl, (refl, (refl, (refl, (refl, (refl, (refl, tt)))))))))))

reached : Reach server sets tracker 1000 after_record ledger
unfolding redis_record
reached =
    was_recorded 900 1000 no_keys [] "acme" "1000.000000" "9f" 70 (unused 900 no_keys (λ k. refl))
      (omega arith) plain_stamp tt refl

member_tokens-member_text_example : member_tokens (member_text "1000.000000" 70 "9f") ≡ 70
member_tokens-member_text_example = member_tokens-member_text "1000.000000" "9f" 70 plain_stamp

redis_check-spent_example :
    let used = spent (suc (1040 - 50)) "acme" ledger in
    let fit = leb (used + 40) (redis_ceiling_for tracker "acme") in
    (((current_usage server tracker 1040 "acme" after_record).0 ≡ some used)
      × (((redis_check server tracker 1040 "acme" 40 after_record).0 ≡ passed) ↔ (fit ≡ true))
      × ((redis_check_running server tracker 1040 "acme" 40 after_record).0 ≡ fit))
    ⊎ (((current_usage server tracker 1040 "acme" after_record).0 ≡ none)
        × ((redis_check server tracker 1040 "acme" 40 after_record).0 ≡ backend_error)
        × ((redis_check_running server tracker 1040 "acme" 40 after_record).0 ≡ false))
redis_check-spent_example =
    redis_check-spent server sets tracker 1000 1040 after_record ledger "acme" 40 (omega arith)
      reached (omega arith)
