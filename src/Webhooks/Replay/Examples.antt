-- ===== src/Webhooks/Replay/Examples.antt =====
-- Four dead letters, one of another event type, one without an endpoint and one without a body.
use sovereign_rag_gateway.Prelude.{
  ◌+◌, ◌≤◌, ◌≡◌, max, String, false, none, some, List, [], ◌∷◌, keep, take, refl, sum_of, length,
}
use sovereign_rag_gateway.Prelude.Text.{strip}
use sovereign_rag_gateway.Prelude.Dict.{values}
use sovereign_rag_gateway.Prelude.Int.{ℤ, pos, pos_part}
use sovereign_rag_gateway.Webhooks.Replay.{
  Row, Outside, Options, normalized_types, is_wanted, consider, considered, count,
  build_idempotency_key, replay_row, replay_rows, replay_dead_letter,
}
use sovereign_rag_gateway.Webhooks.Replay.Counts.{considered-take, replay_dead_letter-accounts}

abbrev outside : Outside
outside = record {
  Body = String;
  canonical = λ b. b;
  dumps = λ b. b;
  sha256_hex = λ s. s;
  lower = λ s. s;
  post = λ url body headers. (200, "");
}

abbrev row : String → String → Row String
row event_type url = record {
  event_type = event_type;
  endpoint_url = url;
  idempotency_key = "k";
  body = some "{}";
}

abbrev rows : List (Row String)
rows =
    row "policy_denied" "u"
    ∷ row "provider_error" "u"
    ∷ row "policy_denied" ""
    ∷ (record (row "policy_denied" "v") { body = none })
    ∷ []

abbrev options : ℤ → Options
options max_events = record {
  event_types = "policy_denied" ∷ [];
  endpoint_override = none;
  max_events = max_events;
  dry_run = false;
  idempotency_suffix = "replay";
}

considered-take_example :
    considered outside (options (pos 0)) rows
    ≡ take
        (max 1 (pos_part (pos 0)))
        (keep (is_wanted outside (normalized_types outside ("policy_denied" ∷ []))) rows)
considered-take_example = considered-take outside (options (pos 0)) rows

replay_dead_letter-accounts_example :
    let s = replay_dead_letter outside (options (pos 5)) rows in
    (s.succeeded + s.failed ≡ s.considered_records)
    × (s.failed ≡ length s.failures)
    × (s.attempted ≤ s.considered_records)
    × (sum_of (λ t. t.attempted) (values s.by_event) ≡ s.attempted)
    × (sum_of (λ t. t.succeeded) (values s.by_event) ≡ s.succeeded)
    × (sum_of (λ t. t.failed) (values s.by_event) ≡ s.failed)
replay_dead_letter-accounts_example = replay_dead_letter-accounts outside (options (pos 5)) rows

-- Of the three rows of the type one is delivered and two fail.
one_of_three :
    let s = replay_dead_letter outside (options (pos 5)) rows in
    (s.considered_records ≡ 3) × (s.attempted ≡ 1) × (s.succeeded ≡ 1) × (s.failed ≡ 2)
unfolding replay_dead_letter considered consider replay_rows replay_row count build_idempotency_key
    strip
one_of_three = (refl, refl, refl, refl)
