-- ===== src/ResearchBudget/Tests.antt =====
-- The budget of a month at a concrete input.
use edufurthersf_be.Prelude.{◌≡◌, refl, inl, []}
use edufurthersf_be.Prelude.Text.{codes}
use edufurthersf_be.ResearchBudget.Grants.{reserve_times, granted_exact}

granted_exact_example : (reserve_times 5 "jina" (codes "2026-07") 3 []).1 ≡ 3
granted_exact_example = granted_exact 5 "jina" (codes "2026-07") 3 [] (inl refl)

-- A budget of 0 grants one call.
zero_budget_run : (reserve_times 5 "jina" (codes "2026-07") 0 []).1 ≡ 1
zero_budget_run = granted_exact 5 "jina" (codes "2026-07") 0 [] (inl refl)
