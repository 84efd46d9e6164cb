-- ===== src/Freshness/Recheck.antt =====
-- When a recheck counts as unchanged.
use mathlib.Core.Option.{some-injective}
use edufurthersf_be.Prelude.{ℕ, ◌≤◌, ◌<◌, ◌≡◌, ◌↔◌, ap, sym, true, Bool, Option, none, some, arith}
use edufurthersf_be.Prelude.Text.{Text, text_eq, text_eq_iff, eq_of_text_eq}
use edufurthersf_be.Freshness.{is_unchanged_recheck}

-- A recheck counts as unchanged exactly if the page was fetched before, was fetched now with a
-- status from 200 to 399, has the same hash as before, and the status rules still pass.
pub unchanged_exact :
    (previous : Option Text) (new_hash : Text) (http_status : ℕ) (still_valid : Bool)
    → (is_unchanged_recheck previous new_hash http_status still_valid ≡ true) ↔ (
        (previous ≡ some new_hash)
        × (200 ≤ http_status)
        × (http_status < 400)
        × (still_valid ≡ true))
unfolding is_unchanged_recheck
unchanged_exact none new_hash http_status still_valid = (λ h. ground arith, λ h. ground arith)
unchanged_exact (some previous) new_hash http_status still_valid = (
  λ h.
      let same : new_hash ≡ previous = eq_of_text_eq new_hash previous (ground arith) in
      (ap some (sym same), ground arith, ground arith, ground arith),
  λ (e, lo, hi, v).
      let hit : text_eq new_hash previous ≡ true =
        (text_eq_iff new_hash previous).1 (sym (some-injective previous new_hash e)) in
      ground arith,
)
