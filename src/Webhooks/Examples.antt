-- ===== src/Webhooks/Examples.antt =====
-- Deliveries with at most two retries: the first POST is answered with 503, the second with 200; and
-- an endpoint that always answers 404.
use sovereign_rag_gateway.Prelude.{
  ℕ, zero, suc, ◌+◌, ◌≡◌, refl, String, Bool, false, is_some, ap, sym, ◌&&◌, true, none, some, List,
  [], ◌∷◌, ◌++◌, keep, length, map, not, if◌then◌else◌, str_eq,
}
use Prim.Native.String.{◌++◌ as str_append}
use sovereign_rag_gateway.Prelude.Int.{pos}
use sovereign_rag_gateway.Metrics.{no_metrics}
use sovereign_rag_gateway.Webhooks.{
  record_delivery, policy_denied, DeliveryResult, PostOutcome, response, RetryPolicy, deliver,
  answered, write_dead_letter, Dispatcher, letter_of, World, dispatch,
}
use sovereign_rag_gateway.Webhooks.DeadLetters.{
  is_expired, Letter, Store, letter, of_letter, jsonl_store, sqlite_store, Clock, retention, write,
  load,
}
use sovereign_rag_gateway.Webhooks.DeadLetters.Retention.{stays, load-write, backends_agree}
use sovereign_rag_gateway.Webhooks.Dispatch.{dispatch-letters}

abbrev retry : RetryPolicy
retry = record { max_retries = 2; backoff_base = 100; backoff_max = 150 }

abbrev posts : ℕ → PostOutcome
posts zero = response 503 5
posts (suc n) = response 200 7

abbrev delivered : DeliveryResult
delivered = answered retry "u" "policy_denied" "key" posts 1 200 7

abbrev clock : Clock
clock = record { parse_timestamp = λ s. some 5; now = 10; day = 1; isoformat = λ n. "2026" }

abbrev world : World
world = record {
  clock = clock;
  timestamp = "2026-01-01";
  body = "{}";
  digest = str_append;
  post = λ ep a. if str_eq ep.url "u" then posts a else response 404 3;
  disk = λ l. if str_eq l.endpoint_url "x" then some (λ s. s) else none;
}

abbrev dispatcher : Dispatcher
dispatcher = record {
  endpoints =
      record { url = "u"; secret = ""; event_types = policy_denied ∷ []; enabled = true }
      ∷ record { url = "v"; secret = ""; event_types = policy_denied ∷ []; enabled = true }
      ∷ record { url = "x"; secret = ""; event_types = policy_denied ∷ []; enabled = true }
      ∷ record { url = "w"; secret = ""; event_types = []; enabled = true }
      ∷ [];
  retry = retry;
  dead_letter_store = some (jsonl_store none []);
  delivery_log = [];
  metrics = no_metrics;
}

abbrev results : List DeliveryResult
results =
    answered retry "u" "policy_denied" "u{}"
      (world.post (record { url = "u"; secret = ""; event_types = []; enabled = true })) 1 200 7
    ∷ answered retry "v" "policy_denied" "v{}" (λ a. response 404 3) 0 404 3
    ∷ answered retry "x" "policy_denied" "x{}" (λ a. response 404 3) 0 404 3
    ∷ []

spared :
    (b : Bool) (left : Store → Store)
    → (if b then some (λ s. s) else none) ≡ some left
    → (s : Store) → left s ≡ s
spared true left h s = ap (λ o. elim o [ none ↦ s | some f ↦ f s ]) (sym h)
spared false left h s = cc

harmless : (l : Letter) (left : Store → Store) → world.disk l ≡ some left → (s : Store) → left s ≡ s
harmless l left h = spared (str_eq l.endpoint_url "x") left h

dispatch-letters_example :
    (dispatch world policy_denied dispatcher).1.dead_letter_store
    ≡ some (
        jsonl_store none (
          []
          ++ map
              (λ r. letter (letter_of world.timestamp world.body r))
              (keep
                (λ r.
                  not r.success
                  && not (is_some (world.disk (letter_of world.timestamp world.body r))))
                results)))
unfolding retention dispatch deliver record_delivery write_dead_letter
dispatch-letters_example =
    dispatch-letters world policy_denied harmless dispatcher results none [] refl refl refl

abbrev a_letter : String → Letter
a_letter key = record {
  timestamp = "2026-01-01";
  event_type = "policy_denied";
  endpoint_url = "v";
  status_code = some 404;
  error = none;
  attempt_count = 1;
  idempotency_key = key;
  body = "{}";
}

load-write_example :
    let (result, after) =
      write clock (a_letter "k2") (jsonl_store (some (pos 7)) (map letter (a_letter "k1" ∷ []))) in
    let left = keep (stays clock (retention (some (pos 7)))) (a_letter "k1" ∷ a_letter "k2" ∷ []) in
    (load none after ≡ some (map of_letter left))
    × (result.written ≡ 1)
    × (result.pruned + length left ≡ 1 + 1)
load-write_example = load-write clock (a_letter "k2") (some (pos 7)) (a_letter "k1" ∷ [])

backends_agree_example :
    let (result, after) =
      write clock (a_letter "k2") (jsonl_store (some (pos 7)) (map letter (a_letter "k1" ∷ []))) in
    let (result', after') =
      write clock (a_letter "k2") (sqlite_store (some (pos 7)) (a_letter "k1" ∷ [])) in
    (load none after ≡ load none after') × (result.pruned ≡ result'.pruned)
unfolding retention is_expired
backends_agree_example =
    backends_agree clock (a_letter "k2") (some (pos 7)) none (a_letter "k1" ∷ []) (refl, (refl, tt))
