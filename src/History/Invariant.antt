-- ===== src/History/Invariant.antt =====
-- What holds of the site after every sequence of steps.
use edufurthersf_be.Prelude.{
  ℕ, ◌≡◌, String, All-In, In, Option, some, ◌⊎◌, inl, inr, refl, sym, ap, ◌∙◌, false,
}
use edufurthersf_be.Prelude.Text.{Text}
use edufurthersf_be.Zones.{DateTime, ZoneLookup}
use edufurthersf_be.Json.{Json}
use edufurthersf_be.Status.{status_unknown}
use edufurthersf_be.Urls.{UrlLibrary}
use edufurthersf_be.Catalogue.{
  Scholarship, ScholarshipCycle, Catalogue, by_id, is_withdrawn, withdrawn,
}
use edufurthersf_be.Catalogue.Invariant.{gone, IsCatalogue}
use edufurthersf_be.Publishing.Keeps.{publish_cycle-IsCatalogue, update_cycle-IsCatalogue}
use edufurthersf_be.Withdrawals.Keeps.{withdraw_scholarship-IsCatalogue}
use edufurthersf_be.Refresh.Keeps.{refresh_due_statuses-IsCatalogue}
use edufurthersf_be.Pages.{Site}
use edufurthersf_be.Reverify.Due.{public_cycle, no_counts, step_of}
use edufurthersf_be.Reverify.Sweep.{IsSite, found-IsSite, step-Keeps}
use edufurthersf_be.History.{
  set_catalogue, Step, publish, update, withdraw, refresh, reverify, Reaches, start, then,
}

written : (s : Site) (db : Catalogue) → IsSite s → IsCatalogue db → IsSite (set_catalogue db s)
written s db h good = record { catalogue = good; tasks = h.tasks }

module _ (zone_info : Text → ZoneLookup) (text_of : Json → Text)
    (fromisoformat : Text → Option DateTime) (urls : UrlLibrary) (id_text : ℕ → Text)
    (published_key : ℕ → Text → Text → String) (withdrawn_key : ℕ → String) where
  step-IsSite :
      (s t : Site)
      → Step zone_info text_of fromisoformat urls id_text published_key withdrawn_key s t
      → IsSite s
      → IsSite t
  step-IsSite s _ (publish cycle_id event_id created_at id v actor fresh) h = written s _ h (
      publish_cycle-IsCatalogue id_text published_key cycle_id event_id created_at id v actor
        s.catalogue fresh h.catalogue)
  step-IsSite s _ (update id cycle_id cycle v changed actor loaded) h = written s _ h (
      update_cycle-IsCatalogue id_text id cycle_id cycle v changed actor s.catalogue loaded
        h.catalogue)
  step-IsSite s _ (withdraw event_id id reason actor) h = written s _ h (
      withdraw_scholarship-IsCatalogue id_text withdrawn_key event_id id reason actor s.catalogue
        h.catalogue)
  step-IsSite s _ (refresh cfg limit now locked) h = written s _ h (
      refresh_due_statuses-IsCatalogue zone_info text_of fromisoformat cfg limit now locked
        s.catalogue h.catalogue)
  step-IsSite s _ (reverify cfg now clients fresh_task fresh_page fresh_snapshot source_id id) h =
      found-IsSite
        (step_of zone_info text_of fromisoformat urls id_text cfg now clients fresh_task fresh_page
          fresh_snapshot source_id)
        (λ id site. site)
        (step-Keeps zone_info text_of fromisoformat urls id_text cfg now clients fresh_task
          fresh_page fresh_snapshot source_id)
        (λ id s h. h) (public_cycle id s.catalogue) id s no_counts refl h

  reaches-IsSite :
      (s t : Site)
      → Reaches zone_info text_of fromisoformat urls id_text published_key withdrawn_key s t
      → IsSite s
      → IsSite t
  reaches-IsSite s _ start h = h
  reaches-IsSite s u (then {t} before step) h = step-IsSite t u step (reaches-IsSite s t before h)

  -- However publishing, correcting, withdrawing, refreshing and re-verifying follow each other, with any
  -- answers to the fetches, from a site that is consistent: a cycle whose scholarship is withdrawn is
  -- stored as unknown.
  pub withdrawn_quiet :
      (s t : Site) (c : ScholarshipCycle) (award : Scholarship)
      → IsSite s
      → Reaches zone_info text_of fromisoformat urls id_text published_key withdrawn_key s t
      → In c t.catalogue.cycles
      → by_id c.scholarship_id t.catalogue.scholarships ≡ some award
      → award.lifecycle_state ≡ withdrawn
      → c.public_status ≡ status_unknown
  withdrawn_quiet s t c award h run m found state =
      let site = reaches-IsSite s t run h in
      elim (All-In
        (λ c.
          (gone (by_id c.scholarship_id t.catalogue.scholarships) ≡ false)
          ⊎ (c.public_status ≡ status_unknown))
        t.catalogue.cycles site.catalogue.quiet m) [
          | inl live ↦ cc (sym live ∙ ap gone found, ap is_withdrawn state)
          | inr unknown ↦ unknown
        ]
