-- ===== src/Providers/Chain.antt =====
-- The fallback chain against the registry: which providers it names, and in which order.
use sovereign_rag_gateway.Prelude.{
  ◌⊎◌, ◌≡◌, refl, String, Bool, true, false, not, none, some, List, [], ◌∷◌, arith, str_eq, eq_iff,
  keep, All-keep, Perm, Bool-cases, Option-cases, inl, inr,
}
use mathlib.Core.List.Perm
use mathlib.Core.List.{Permᴰ}
use mathlib.Core.Logic.{∥∥₁_elim, ∥∥₁_prop}
use sovereign_rag_gateway.Prelude.Dict.{get, put, values, get-put}
use sovereign_rag_gateway.Providers.{
  Entry, Registry, register, sort_by_priority, enabled_entries, fallback_chain, Demand, is_eligible,
  eligible_chain,
}
use sovereign_rag_gateway.Providers.Sorting.{
  IsSorted, sort_by_priority-perm, sort_by_priority-IsSorted,
}

-- Each entry stands under its own name, once.
abbrev pub IsKeyed : Registry → Type 0
IsKeyed [] = Unit
IsKeyed ((k, e) ∷ r) = (e.name ≡ k) × (get k r ≡ none) × IsKeyed r

-- The registry after some registrations.
unfoldable pub register_all : List Entry → Registry
register_all [] = []
register_all (e ∷ es) = register e (register_all es)

put-IsKeyed : (e : Entry) (r : Registry) → IsKeyed r → IsKeyed (put e.name e r)
unfolding put
put-IsKeyed e [] h = (refl, unfold get in refl, tt)
put-IsKeyed e ((k, f) ∷ r) h =
    ground (arith, put-IsKeyed e r h.2, get-put e.name k e r, eq_iff k e.name, eq_iff e.name k)

pub register_all-IsKeyed : (es : List Entry) → IsKeyed (register_all es)
unfolding register_all register
register_all-IsKeyed [] = tt
register_all-IsKeyed (e ∷ es) = put-IsKeyed e (register_all es) (register_all-IsKeyed es)

module _ (primary : String) where
  abbrev is_other : Entry → Bool
  is_other f = not (str_eq f.name primary)

  keep-is_other :
      (r : Registry)
      → IsKeyed r
      → get primary r ≡ none
      → keep is_other (enabled_entries r) ≡ enabled_entries r
  unfolding get
  keep-is_other [] h n = refl
  keep-is_other ((k, f) ∷ r) h n =
      ground (arith, keep-is_other r h.2, eq_iff k primary, eq_iff f.name primary)

  primary_first-perm :
      (r : Registry) (e : Entry)
      → IsKeyed r
      → get primary r ≡ some e
      → e.enabled ≡ true
      → Perm (e ∷ keep is_other (enabled_entries r)) (enabled_entries r)
  unfolding get
  primary_first-perm [] e h g on = absurd (ground arith)
  primary_first-perm ((k, f) ∷ r) e h g on = elim (Bool-cases (str_eq k primary)) [
    | inl same ↦
        let found : e ∷ keep is_other (enabled_entries ((k, f) ∷ r))
            ≡ enabled_entries ((k, f) ∷ r) =
          ground (arith, keep-is_other r h.2, eq_iff k primary, eq_iff f.name primary) in
        rw found (Perm.refl _)
    | inr differs ↦
        let ih : Perm (e ∷ keep is_other (enabled_entries r)) (enabled_entries r) =
          primary_first-perm r e h.2 (ground arith) on in
        let other : is_other f ≡ true = ground (arith, eq_iff k primary, eq_iff f.name primary) in
        elim (Bool-cases f.enabled) [
          | inl up ↦ simp (up, other) (Perm.trans (Perm.swap f e _) (Perm.cons f ih))
          | inr down ↦ simp down ih
        ]
  ]

-- The fallback chain names every enabled provider once.
fallback_chain-perm :
    (r : Registry) (primary : String)
    → IsKeyed r
    → Perm (fallback_chain r primary) (enabled_entries r)
unfolding fallback_chain
fallback_chain-perm r primary h = elim (Option-cases (get primary r)) [
  | inl n ↦ rw (n, fallback_chain) (sort_by_priority-perm _)
  | inr (e, g) ↦ elim (Bool-cases e.enabled) [
    | inl up ↦
        rw (g, fallback_chain)
          (simp up (
            Perm.trans (Perm.cons e (sort_by_priority-perm _))
              (primary_first-perm primary r e h g up)))
    | inr down ↦ rw (g, fallback_chain) (simp down (sort_by_priority-perm _))
  ]
]

keep-swap :
    (p : Entry → Bool) (a b : Entry) (l : List Entry)
    → Perm (keep p (a ∷ b ∷ l)) (keep p (b ∷ a ∷ l))
keep-swap p a b l = elim (Bool-cases (p a)) [
  | inl y ↦ elim (Bool-cases (p b)) [
    | inl z ↦ rw (y, z) (Perm.swap b a _)
    | inr z ↦ rw (y, z) (Perm.refl _)
  ]
  | inr y ↦ rw y (Perm.refl _)
]

keep-permᴰ : (p : Entry → Bool) {xs ys : List Entry} → Permᴰ xs ys → Perm (keep p xs) (keep p ys)
keep-permᴰ p Permᴰ.nil = Perm.refl []
keep-permᴰ p (Permᴰ.cons {a = a} {b = b} e h) = elim (Bool-cases (p b)) [
  | inl y ↦ rw (e, y) (Perm.cons b (keep-permᴰ p h))
  | inr n ↦ rw (e, n) (keep-permᴰ p h)
]
keep-permᴰ p (Permᴰ.swap {a = a} {b = b} {a' = c} {b' = d} {l = l} e f) =
    rw (e, f) (keep-swap p d c l)
keep-permᴰ p (Permᴰ.trans h k) = Perm.trans (keep-permᴰ p h) (keep-permᴰ p k)

keep-perm : (p : Entry → Bool) (xs ys : List Entry) → Perm xs ys → Perm (keep p xs) (keep p ys)
keep-perm p xs ys h = ∥∥₁_elim h ∥∥₁_prop (keep-permᴰ p)

keep-enabled :
    (d : Demand) (es : List Entry)
    → keep (is_eligible d) (keep (λ e. e.enabled) es) ≡ keep (is_eligible d) es
unfolding is_eligible
keep-enabled d [] = refl
keep-enabled d (e ∷ es) = ground (arith, keep-enabled d es)

-- The chain for a request names each registered provider that is eligible for it, exactly once,
-- and no other.
pub eligible_chain-perm :
    (r : Registry) (primary : String) (d : Demand)
    → IsKeyed r
    → Perm (eligible_chain r primary d) (keep (is_eligible d) (values r))
unfolding eligible_chain
eligible_chain-perm r primary d h =
    rw (← keep-enabled d (values r))
      (keep-perm (is_eligible d) _ _ (fallback_chain-perm r primary h))

keep-IsSorted : (p : Entry → Bool) (es : List Entry) → IsSorted es → IsSorted (keep p es)
keep-IsSorted p [] h = tt
keep-IsSorted p (e ∷ es) h = elim (Bool-cases (p e)) [
  | inl y ↦ rw y (All-keep p es _ h.0, keep-IsSorted p es h.1)
  | inr n ↦ rw n (keep-IsSorted p es h.1)
]

eligible-enabled : (d : Demand) (e : Entry) → is_eligible d e ≡ true → e.enabled ≡ true
unfolding is_eligible
eligible-enabled d e h = ground arith

eligible-IsSorted :
    (d : Demand) (es : List Entry) → IsSorted (keep (is_eligible d) (sort_by_priority es))
eligible-IsSorted d es = keep-IsSorted (is_eligible d) _ (sort_by_priority-IsSorted es)

-- Either the primary provider is registered and eligible, and the chain begins with it and goes on
-- in the order of priority, or it is not, and the whole chain is in the order of priority.
pub eligible_chain-order :
    (r : Registry) (primary : String) (d : Demand)
    → ((e : Entry) × (rest : List Entry) × (get primary r ≡ some e)
        × (is_eligible d e ≡ true)
        × (eligible_chain r primary d ≡ e ∷ rest)
        × IsSorted rest)
      ⊎ (((e : Entry) → get primary r ≡ some e → is_eligible d e ≡ false)
          × IsSorted (eligible_chain r primary d))
unfolding eligible_chain fallback_chain
eligible_chain-order r primary d = elim (Option-cases (get primary r)) [
  | inl n ↦
      inr (λ e g. ground arith, rw (n, fallback_chain) (eligible-IsSorted d (enabled_entries r)))
  | inr (e, g) ↦ elim (Bool-cases e.enabled) [
    | inl up ↦ elim (Bool-cases (is_eligible d e)) [
      | inl y ↦ inl (
        e,
        _,
        g,
        y,
        rw (g, fallback_chain) (simp (up, y) refl),
        eligible-IsSorted d (keep (λ f. not (str_eq f.name primary)) (enabled_entries r)),
      )
      | inr y ↦
          inr (λ f k. ground arith, rw (g, fallback_chain) (simp (up, y) (eligible-IsSorted d _)))
    ]
    | inr down ↦ inr (
      λ f k. ground (arith, eligible-enabled d f),
      rw (g, fallback_chain) (simp down (eligible-IsSorted d (enabled_entries r))),
    )
  ]
]
