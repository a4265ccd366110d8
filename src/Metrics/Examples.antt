-- ===== src/Metrics/Examples.antt =====
-- Histograms of one series with observations of 0.3 s and 4 s, and of another.
use sovereign_rag_gateway.Prelude.{ℕ, ◌*◌, ◌<◌, ◌≤◌, ◌≡◌, refl, List, [], ◌∷◌, arith, some}
use sovereign_rag_gateway.Metrics.{Series, series_eq, no_metrics, render_series}
use sovereign_rag_gateway.Metrics.Histogram.{
  observe_all, values_of, last_bucket-gt-inf, bucket_sample, inf_sample,
}

abbrev chat : Series
chat = record { name = "srg_request_duration_seconds"; labels = ("endpoint", "chat") ∷ [] }

abbrev other : Series
other = record { name = "srg_request_duration_seconds"; labels = ("endpoint", "models") ∷ [] }

abbrev observed : List (Series × ℕ)
observed = (chat, 30000000) ∷ (other, 2000000000) ∷ (chat, 400000000) ∷ []

chat_values : values_of chat observed ≡ 30000000 ∷ 400000000 ∷ []
unfolding series_eq
chat_values = refl

last_bucket-gt-inf_example :
    let lines = render_series chat (observe_all observed no_metrics) in
    (n : ℕ) × (i : ℕ) × (bucket_sample 1000000000 lines ≡ some n)
    × (inf_sample lines ≡ some i)
    × (2 * i ≤ n)
    × (i < n)
unfolding series_eq
last_bucket-gt-inf_example =
    last_bucket-gt-inf observed chat (omega arith, (omega arith, tt)) (omega arith)
