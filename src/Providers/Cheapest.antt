-- ===== src/Providers/Cheapest.antt =====
-- The selection by cost.
use sovereign_rag_gateway.Prelude.{
  ◌↔◌, ℕ, ◌<◌, ◌≤◌, ◌≡◌, refl, ap, Option, none, some, List, [], ◌∷◌, ◌++◌, arith, ltb, All,
  Bool-cases, inl, inr,
}
use mathlib.Core.Path.{subst}
use mathlib.Core.Option.{some-injective}
use sovereign_rag_gateway.Providers.{
  Entry, Registry, enabled_entries, estimated_cost, min_by_cost, cheapest_for_tokens,
}

module _ (key : Entry → ℕ) where
  -- `m` is the first of the least of the list.
  pub record IsFirstLeast (m : Entry) (es : List Entry) : Type 0 where
    pub before : List Entry
    pub after : List Entry
    pub split : es ≡ before ++ m ∷ after
    pub dearer : All (λ e. key m < key e) before
    pub not_cheaper : All (λ e. key m ≤ key e) after

  -- A new head that costs more is one more before; one after the head that costs no less is passed.
  add_dearer :
      (m e : Entry) (es : List Entry) → key m < key e → IsFirstLeast m es → IsFirstLeast m (e ∷ es)
  add_dearer m e es h f = record {
    before = e ∷ f.before;
    after = f.after;
    split = ap (λ l. e ∷ l) f.split;
    dearer = (h, f.dearer);
    not_cheaper = f.not_cheaper;
  }

  skip_second :
      (m best e : Entry) (es before after : List Entry)
      → key best ≤ key e
      → best ∷ es ≡ before ++ m ∷ after
      → All (λ x. key m < key x) before
      → All (λ x. key m ≤ key x) after
      → IsFirstLeast m (best ∷ e ∷ es)
  skip_second m best e es [] after h s d n = record {
    before = [];
    after = e ∷ after;
    split = ground arith;
    dearer = tt;
    not_cheaper = (ground arith, n);
  }
  skip_second m best e es (b ∷ bs) after h s d n = record {
    before = best ∷ e ∷ bs;
    after = after;
    split = ground arith;
    dearer = (ground arith, (ground arith, d.1));
    not_cheaper = n;
  }

  min_by_cost-IsFirstLeast :
      (best : Entry) (es : List Entry)
      → IsFirstLeast (min_by_cost key best es) (best ∷ es)
        × (key (min_by_cost key best es) ≤ key best)
  unfolding min_by_cost
  min_by_cost-IsFirstLeast best [] =
      (record { before = []; after = []; split = refl; dearer = tt; not_cheaper = tt }, omega arith)
  min_by_cost-IsFirstLeast best (e ∷ es) = elim (Bool-cases (ltb (key e) (key best))) [
    | inl y ↦ rw y (
        let ih = min_by_cost-IsFirstLeast e es in
        (add_dearer _ best (e ∷ es) (ground (arith, ih.1)) ih.0, ground (arith, ih.1)))
    | inr n ↦ rw n (
        let ih = min_by_cost-IsFirstLeast best es in
        (
          skip_second _ best e es ih.0.before ih.0.after (ground arith) ih.0.split ih.0.dearer
              ih.0.not_cheaper,
          ih.1,
        ))
  ]

choose : ℕ → ℕ → List Entry → Option Entry
choose input output es = elim es [
  | [] ↦ none
  | e ∷ fs ↦ some (min_by_cost (estimated_cost input output) e fs)
]

choose-IsFirstLeast :
    (input output : ℕ) (es : List Entry)
    → ((e : Entry)
        → choose input output es ≡ some e
        → IsFirstLeast (estimated_cost input output) e es)
      × (choose input output es ≡ none ↔ es ≡ [])
unfolding choose
choose-IsFirstLeast input output [] = (λ e h. absurd (ground arith), (λ h. refl, λ h. refl))
choose-IsFirstLeast input output (e ∷ es) = (
  λ m h.
      let least = min_by_cost-IsFirstLeast (estimated_cost input output) e es in
      subst (λ k. IsFirstLeast (estimated_cost input output) k (e ∷ es)) (some-injective _ _ h)
        least.0,
  (λ h. absurd (ground arith), λ h. absurd (ground arith)),
)

-- The selected provider is enabled; every enabled one before it in the registry costs more for the
-- estimate, and none after it costs less. There is none exactly if no provider is enabled.
pub cheapest_for_tokens-IsFirstLeast :
    (r : Registry) (input output : ℕ)
    → ((e : Entry)
        → cheapest_for_tokens r input output ≡ some e
        → IsFirstLeast (estimated_cost input output) e (enabled_entries r))
      × (cheapest_for_tokens r input output ≡ none ↔ enabled_entries r ≡ [])
unfolding cheapest_for_tokens choose
cheapest_for_tokens-IsFirstLeast r input output =
    choose-IsFirstLeast input output (enabled_entries r)
