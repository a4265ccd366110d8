-- ===== src/Settings/Limits.antt =====
-- What the maps of limits hold.
use sovereign_rag_gateway.Prelude.{
  ℕ, ◌<◌, ◌≡◌, String, false, Option, none, some, List, [], ◌∷◌, ltb, str_eq, All, arith,
  Bool-cases, inl, inr,
}
use sovereign_rag_gateway.Prelude.Dict.{Dict, put}
use sovereign_rag_gateway.Prelude.Int.{ℤ, pos_part}
use sovereign_rag_gateway.Prelude.Text.{strip}
use sovereign_rag_gateway.Prelude.Text.Decimal.{code_points, int_of}
use sovereign_rag_gateway.Settings.{with_limit, with_entry, add_limits, split_at_colon}

-- A limit that a tenant is given: neither the name is empty nor the limit 0, which would be none.
abbrev pub IsLimit : String × ℕ → Type 0
IsLimit e = (str_eq e.0 "" ≡ false) × (0 < e.1)

put-limits :
    (k : String) (n : ℕ) (d : Dict ℕ) → IsLimit (k, n) → All IsLimit d → All IsLimit (put k n d)
unfolding put
put-limits k n [] h all = (h, tt)
put-limits k n ((j, m) ∷ d) h all = elim (Bool-cases (str_eq j k)) [
  | inl same ↦ rw same ((all.0.0, h.1), all.1)
  | inr other ↦ rw other (all.0, put-limits k n d h all.1)
]

limited : (k : String) (o : Option ℤ) (d : Dict ℕ) → All IsLimit d → All IsLimit (with_limit k o d)
limited k none d all = all
limited k (some n) d all = elim (Bool-cases (str_eq k "")) [
  | inl unnamed ↦ rw unnamed all
  | inr named ↦ elim (Bool-cases (ltb 0 (pos_part n))) [
    | inl more ↦ rw (named, more) (put-limits k (pos_part n) d (named, ground (arith, more)) all)
    | inr less ↦ rw (named, less) all
  ]
]

entered : (o : Option (String × String)) (d : Dict ℕ) → All IsLimit d → All IsLimit (with_entry o d)
entered none d all = all
entered (some p) d all = limited (strip p.0) (int_of (code_points (strip p.1))) d all

-- Whatever the text of the setting, each limit or ceiling that is read from it is positive and is one of
-- a tenant with a name.
pub add_limits-IsLimit :
    (entries : List String) (d : Dict ℕ) → All IsLimit d → All IsLimit (add_limits entries d)
unfolding add_limits
add_limits-IsLimit [] d all = all
add_limits-IsLimit (item ∷ more) d all =
    add_limits-IsLimit more (with_entry (split_at_colon (strip item)) d)
      (entered (split_at_colon (strip item)) d all)
