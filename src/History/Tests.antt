-- ===== src/History/Tests.antt =====
-- A history at concrete inputs: a withdrawal of a published record, and then a sweep of refreshes.
use edufurthersf_be.Prelude.{ℕ, ◌≡◌, refl, In, String, inl, some}
use edufurthersf_be.Prelude.Text.{Text, codes}
use edufurthersf_be.Status.{status_unknown}
use edufurthersf_be.Catalogue.{ScholarshipCycle, withdrawn, by_id}
use edufurthersf_be.Samples.{
  no_zones, no_text, no_timestamps, id_text, cycle_of, award, site, site-IsSite, urls,
}
use edufurthersf_be.Pages.{Site}
use edufurthersf_be.Withdrawals.{withdraw_scholarship, withdraw_found, withdraw}
use edufurthersf_be.History
use edufurthersf_be.Rows.{update_row}
use edufurthersf_be.History.{set_catalogue, Reaches, start, then}
use edufurthersf_be.History.Invariant.{withdrawn_quiet}

abbrev published_key : ℕ → Text → Text → String
published_key id key segment = "published"

abbrev withdrawn_key : ℕ → String
withdrawn_key id = "withdrawn"

abbrev after : Site
after =
    set_catalogue
      (withdraw_scholarship id_text withdrawn_key 5 1 (codes "misleading") (codes "reviewer")
        site.catalogue).0
      site

abbrev closed : ScholarshipCycle
closed = record (cycle_of 10 1) { public_status = status_unknown }

closed_stored : In closed after.catalogue.cycles
unfolding withdraw_scholarship withdraw_found withdraw
closed_stored = inl refl

award_withdrawn :
    by_id closed.scholarship_id after.catalogue.scholarships
    ≡ some (record award { lifecycle_state = withdrawn })
unfolding withdraw_scholarship withdraw_found withdraw update_row
award_withdrawn = refl

withdrawn_quiet_example : closed.public_status ≡ status_unknown
withdrawn_quiet_example =
    withdrawn_quiet no_zones no_text no_timestamps urls id_text published_key withdrawn_key site
      after closed (record award { lifecycle_state = withdrawn }) site-IsSite
      (then start (History.withdraw 5 1 (codes "misleading") (codes "reviewer"))) closed_stored
      award_withdrawn refl
