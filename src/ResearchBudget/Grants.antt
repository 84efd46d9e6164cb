-- ===== src/ResearchBudget/Grants.antt =====
-- How many calls of a month are granted.
use edufurthersf_be.Prelude.{
  ℕ, zero, suc, ◌+◌, ◌-◌, ◌≤◌, ◌≡◌, refl, ap, ◌⊎◌, inl, inr, String, str_eq, eq_iff, Bool, true,
  false, Option, none, some, List, [], ◌∷◌, ◌++◌, arith, ltb, min, max, if◌then◌else◌,
  find-append_none, Bool-cases,
}
use edufurthersf_be.Prelude.Text.{Text, text_eq_refl}
use edufurthersf_be.ResearchBudget.{
  ResearchProviderUsage, is_row, usage_of, increment, reserve_on, reserve_call,
}

-- The calls that a table records for a provider and a month.
abbrev pub used_of : Option ResearchProviderUsage → ℕ
used_of none = 0
used_of (some u) = u.calls_used

abbrev pub used : String → Text → List ResearchProviderUsage → ℕ
used provider period_key t = used_of (usage_of provider period_key t)

own_row :
    (provider : String) (period_key : Text) (calls_used : ℕ)
    → is_row provider period_key
        (record { provider = provider; period_key = period_key; calls_used = calls_used })
      ≡ true
own_row provider period_key calls_used =
    let e : str_eq provider provider ≡ true = (eq_iff provider provider).1 refl in
    rw (e, text_eq_refl period_key) refl

used-increment :
    (provider : String) (period_key : Text) (t : List ResearchProviderUsage)
    (u : ResearchProviderUsage)
    → usage_of provider period_key t ≡ some u
    → used provider period_key (increment provider period_key t) ≡ u.calls_used + 1
unfolding increment
used-increment provider period_key [] u h = cc
used-increment provider period_key (v ∷ t) u h = elim (Bool-cases (is_row provider period_key v)) [
  | inl e ↦ rw (e, e) (ap (λ o. used_of o + 1) (rw e at h))
  | inr e ↦ rw (e, e) (used-increment provider period_key t u (rw e at h))
]

granted_to :
    (found : Option ResearchProviderUsage) (provider : String) (period_key : Text) (limit : ℕ)
    (t : List ResearchProviderUsage)
    → usage_of provider period_key t ≡ found
    → (found ≡ none) ⊎ (1 ≤ used_of found)
    → let (u, granted) = reserve_on found provider period_key limit t in
      (granted ≡ ltb (used_of found) (max 1 limit))
      × (used provider period_key u ≡ (if granted then used_of found + 1 else used_of found))
granted_to none provider period_key limit t h counted =
    let row : ResearchProviderUsage = record {
      provider = provider;
      period_key = period_key;
      calls_used = 1;
    } in
    let stored : usage_of provider period_key (t ++ row ∷ []) ≡ some row =
      rw
        (
          find-append_none (is_row provider period_key) t (row ∷ []) h,
          own_row provider period_key 1,
        )
        refl in
    (ground arith, ap used_of stored)
granted_to (some u) provider period_key limit t h (inl e) = cc
granted_to (some u) provider period_key limit t h (inr counted) =
    elim (Bool-cases (ltb u.calls_used limit)) [
      | inl e ↦ rw e (below u.calls_used limit e, used-increment provider period_key t u h)
      | inr e ↦ rw e (above u.calls_used limit counted e, ap used_of h)
    ]
  where
    below : (a b : ℕ) → ltb a b ≡ true → true ≡ ltb a (max 1 b)
    below a b e = ground arith

    above : (a b : ℕ) → 1 ≤ a → ltb a b ≡ false → false ≡ ltb a (max 1 b)
    above a b k e = ground arith

-- A row for the month counts at least the call that created it.
abbrev pub IsCounted : String → Text → List ResearchProviderUsage → Type 0
IsCounted provider period_key t =
    (usage_of provider period_key t ≡ none) ⊎ (1 ≤ used provider period_key t)

-- One reservation is granted exactly while the count is below the limit (or is 0), and counts it.
reserve_one :
    (provider : String) (period_key : Text) (limit : ℕ) (t : List ResearchProviderUsage)
    → IsCounted provider period_key t
    → let (u, granted) = reserve_call provider period_key limit t in
      let before = used provider period_key t in
      (granted ≡ ltb before (max 1 limit))
      × (used provider period_key u ≡ (if granted then before + 1 else before))
unfolding reserve_call
reserve_one provider period_key limit t counted =
    granted_to (usage_of provider period_key t) provider period_key limit t refl counted

counted_after :
    (before limit after : ℕ) (granted : Bool)
    → granted ≡ ltb before (max 1 limit)
    → after ≡ (if granted then before + 1 else before)
    → 1 ≤ after
counted_after before limit after true g a = ground arith
counted_after before limit after false g a = ground arith

abbrev pub count_if : Bool → ℕ → ℕ
count_if true n = n + 1
count_if false n = n

-- As many reservations as are asked for, one after the other, and how many were granted.
abbrev pub reserve_times :
    ℕ → String → Text → ℕ → List ResearchProviderUsage → List ResearchProviderUsage × ℕ
reserve_times zero provider period_key limit t = (t, 0)
reserve_times (suc n) provider period_key limit t =
    let (u, granted) = reserve_call provider period_key limit t in
    let (v, rest) = reserve_times n provider period_key limit u in (v, count_if granted rest)

one_more :
    (before limit after n rest : ℕ) (granted : Bool)
    → granted ≡ ltb before (max 1 limit)
    → after ≡ (if granted then before + 1 else before)
    → rest ≡ min n (max 1 limit - after)
    → count_if granted rest ≡ min (suc n) (max 1 limit - before)
one_more before limit after n rest true g a r = ground arith
one_more before limit after n rest false g a r = ground arith

-- Of any number of calls in a month, as many are granted as the budget has left, where a budget of
-- 0 counts as 1, and a row for the month counts at least one call.
pub granted_exact :
    (n : ℕ) (provider : String) (period_key : Text) (limit : ℕ) (t : List ResearchProviderUsage)
    → IsCounted provider period_key t
    → (reserve_times n provider period_key limit t).1
      ≡ min n (max 1 limit - used provider period_key t)
granted_exact zero provider period_key limit t counted = ground arith
granted_exact (suc n) provider period_key limit t counted =
    let (u, granted) = reserve_call provider period_key limit t in
    let before = used provider period_key t in
    let after = used provider period_key u in
    let (g, a) = reserve_one provider period_key limit t counted in
    one_more before limit after n (reserve_times n provider period_key limit u).1 granted g a (
      granted_exact n provider period_key limit u
        (inr (counted_after before limit after granted g a)))
