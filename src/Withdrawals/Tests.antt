-- ===== src/Withdrawals/Tests.antt =====
-- A withdrawal at a concrete input.
use edufurthersf_be.Prelude.{
  ℕ, ◌≡◌, refl, String, false, none, [], ◌∷◌, ok, raise, value_error, Result,
}
use edufurthersf_be.Prelude.Text.{Text, codes}
use edufurthersf_be.Status.{open_verified}
use edufurthersf_be.Catalogue.{published, ScholarshipCycle, Catalogue}
use edufurthersf_be.Withdrawals.{withdraw_found, withdraw_scholarship}
use edufurthersf_be.Withdrawals.Hidden.{IsWithdrawal, withdrawn_once}

abbrev cycle_of : ℕ → ℕ → ScholarshipCycle
cycle_of cycle_id id = record {
  cycle_id = cycle_id;
  scholarship_id = id;
  provider_cycle_key = codes "2026";
  applicant_segment = codes "default";
  official_cycle_url = codes "https://a.test/";
  public_status = open_verified;
  status_valid_until = none;
  last_verified_at = none;
  facts = [];
  source_page_id = none;
  auto_downgraded = false;
  is_auto_approved = false;
  created_at = 0;
}

abbrev stored : Catalogue
stored = record {
  scholarships =
      (record {
        scholarship_id = 1;
        provider_id = 1;
        slug = codes "chevening";
        name = codes "Chevening";
        official_home_url = codes "https://a.test/";
        award_type = codes "scholarship";
        lifecycle_state = published;
      })
      ∷ [];
  cycles = cycle_of 10 1 ∷ cycle_of 20 2 ∷ [];
  audits = [];
  events = [];
}

abbrev id_text : ℕ → Text
id_text n = n ∷ []

abbrev withdrawn_key : ℕ → String
withdrawn_key n = "withdrawn"

abbrev after : Catalogue × Result ℕ
after =
    withdraw_scholarship id_text withdrawn_key 5 1 (codes "misleading") (codes "reviewer") stored

withdrawal_run : after.1 ≡ ok 1
unfolding withdraw_scholarship withdraw_found
withdrawal_run = refl

withdrawn_once_example :
    IsWithdrawal "withdrawn" 1 stored after.0 1
    × (withdraw_scholarship id_text withdrawn_key 6 1 (codes "again") (codes "reviewer") after.0
        ≡ (after.0, raise (value_error "Scholarship is already withdrawn")))
withdrawn_once_example =
    withdrawn_once id_text withdrawn_key 5 6 1 (codes "misleading") (codes "reviewer")
      (codes "again") (codes "reviewer") stored 1 withdrawal_run
