-- ===== src/Metrics/Tables.antt =====
-- The laws of a table of series.
use sovereign_rag_gateway.Prelude.{◌≡◌, ◌↔◌, refl, true, [], ◌∷◌, arith, eq_iff, if◌then◌else◌}
use sovereign_rag_gateway.Metrics.{LabelKey, Series, labels_eq, series_eq, Table, at, modify}

labels_eq_iff : (a b : LabelKey) → (labels_eq a b ≡ true) ↔ (a ≡ b)
unfolding labels_eq
labels_eq_iff [] [] = (λ h. refl, λ e. refl)
labels_eq_iff [] (x ∷ b) = (λ h. ground arith, λ e. ground arith)
labels_eq_iff (x ∷ a) [] = (λ h. ground arith, λ e. ground arith)
labels_eq_iff ((k, v) ∷ a) ((j, w) ∷ b) = (
  λ h. ground (arith, eq_iff k j, eq_iff v w, labels_eq_iff a b),
  λ e. ground (arith, eq_iff k j, eq_iff v w, labels_eq_iff a b),
)

pub series_eq_iff : (s t : Series) → (series_eq s t ≡ true) ↔ (s ≡ t)
unfolding series_eq
series_eq_iff s t = (
  λ h. ground (arith, eq_iff s.name t.name, labels_eq_iff s.labels t.labels),
  λ e. ground (arith, eq_iff s.name t.name, labels_eq_iff s.labels t.labels),
)

-- A write at one series is read there, and nowhere else.
pub at-modify :
    {V : Type 0} (d : V) (f : V → V) (t s : Series) (r : Table V)
    → at d s (modify d f t r) ≡ (if series_eq t s then f (at d t r) else at d s r)
unfolding at modify
at-modify d f t s [] = refl
at-modify d f t s ((u, v) ∷ r) =
    ground (arith, series_eq_iff t s, series_eq_iff u t, series_eq_iff u s, at-modify d f t s r)
