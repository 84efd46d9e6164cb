-- ===== src/RateLimit/Tests.antt =====
-- Five requests of two visitors, two to a window of 60.
use edufurthersf_be.Prelude.{ℕ, ◌≡◌, refl, true, false, List, [], ◌∷◌, arith}
use edufurthersf_be.Prelude.Text.{Text, codes, text_eq}
use edufurthersf_be.RateLimit.{new_limiter, is_idle, trimmed, evict_expired, allow}
use edufurthersf_be.RateLimit.Exact.{Request, answers, specified, limiter_exact}

abbrev at_time : Text → ℕ → Request
at_time key now = record { key = key; limit = 2; now = now }

abbrev visits : List Request
visits =
    at_time (codes "a") 10
    ∷ at_time (codes "a") 20
    ∷ at_time (codes "b") 30
    ∷ at_time (codes "a") 40
    ∷ at_time (codes "a") 75
    ∷ []

visits_test : answers 60 new_limiter visits ≡ true ∷ true ∷ true ∷ false ∷ true ∷ []
unfolding allow trimmed evict_expired is_idle text_eq
visits_test = refl

limiter_exact_example : answers 60 new_limiter visits ≡ specified 60 (λ key. []) visits
limiter_exact_example =
    limiter_exact 60 visits
      (omega arith, (omega arith, (omega arith, (omega arith, (omega arith, tt)))))
