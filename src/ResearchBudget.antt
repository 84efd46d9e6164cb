-- ===== src/ResearchBudget.antt =====
-- src/app/infra/research_budget.py: the monthly budget of calls to a provider. The key of the month is an
-- argument.
pub mod Grants
mod Tests
use edufurthersf_be.Prelude.{
  ℕ, ◌+◌, String, str_eq, Bool, true, false, ◌&&◌, Option, none, some, List, [], ◌∷◌, ◌++◌, ltb,
  if◌then◌else◌, find,
}
use edufurthersf_be.Prelude.Text.{Text, text_eq}

pub record ResearchProviderUsage : Type 0 where
  pub provider : String
  pub period_key : Text
  pub calls_used : ℕ

abbrev pub is_row : String → Text → ResearchProviderUsage → Bool
is_row provider period_key u = str_eq u.provider provider && text_eq u.period_key period_key

abbrev pub usage_of : String → Text → List ResearchProviderUsage → Option ResearchProviderUsage
usage_of provider period_key = find (is_row provider period_key)

unfoldable pub increment : String → Text → List ResearchProviderUsage → List ResearchProviderUsage
increment provider period_key [] = []
increment provider period_key (u ∷ t) =
    (if is_row provider period_key u then record u { calls_used = u.calls_used + 1 } else u)
    ∷ increment provider period_key t

-- INSERT, ON CONFLICT DO UPDATE where the limit is not reached, RETURNING.
abbrev pub reserve_on :
    Option ResearchProviderUsage
    → String
    → Text
    → ℕ
    → List ResearchProviderUsage
    → List ResearchProviderUsage × Bool
reserve_on none provider period_key limit t =
    (t ++ record { provider = provider; period_key = period_key; calls_used = 1 } ∷ [], true)
reserve_on (some u) provider period_key limit t =
    if ltb u.calls_used limit then (increment provider period_key t, true) else (t, false)

unfoldable pub reserve_call :
    String → Text → ℕ → List ResearchProviderUsage → List ResearchProviderUsage × Bool
unfolding increment
reserve_call provider period_key limit t =
    reserve_on (usage_of provider period_key t) provider period_key limit t
