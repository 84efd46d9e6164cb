-- ===== src/Reverify/Sweep.antt =====
-- A sweep of re-verifications, with what other sessions do between two cycles.
use edufurthersf_be.Prelude.{
  ℕ, ◌+◌, ◌≡◌, ◌≤◌, max, refl, subst, inl, inr, Bool, true, false, not, ◌&&◌, Option, none, some,
  List, [], ◌∷◌, arith, ◌==◌, leb, find-In, length, In, Bool-cases, if◌then◌else◌, Result, ok,
  raise, ◌>>=◌, bind_returned, ok-injective,
}
use edufurthersf_be.Prelude.Text.{Text}
use edufurthersf_be.Prelude.Session.{Session, opened}
use edufurthersf_be.Time.{Instant}
use edufurthersf_be.Zones.{DateTime, ZoneLookup}
use edufurthersf_be.Json.{Json}
use edufurthersf_be.Freshness.{FreshnessConfig, is_reverify_due}
use edufurthersf_be.Urls.{UrlLibrary}
use edufurthersf_be.Catalogue.{ScholarshipCycle, is_public}
use edufurthersf_be.Catalogue.Invariant.{IsCatalogue}
use edufurthersf_be.Refresh.{bucket_of, published_cycles}
use edufurthersf_be.Pages.{Source, Site, Clients}
use edufurthersf_be.Pages.Persisted.{Both}
use edufurthersf_be.Reverify.{Outcome, renewed, flagged, deferred}
use edufurthersf_be.Reverify.Due.{
  Counts, no_counts, scan_limit, official_source, or_due, public_cycle, due_cycles, Step, settle,
  reverify_found, reverify_each, reverify_ids, step_of, reverify_from, reverify_due_cycles,
}
use edufurthersf_be.Reverify.Steps.{reverify_one-Both}
use edufurthersf_be.Reverify.Keeps.{Kept, Kept-Stable, Kept-public, OneTaskEach, OneTaskEach-Stable}

-- The catalogue is consistent, and no cycle has two live tasks.
pub record IsSite (s : Site) : Type 0 where
  pub catalogue : IsCatalogue s.catalogue
  pub tasks : OneTaskEach s

-- A step that keeps the site, at a cycle that is public.
abbrev pub StepKeeps : Step → Type 0
StepKeeps step =
    (id : ℕ) (cycle : ScholarshipCycle) (s : Site)
    → IsSite s
    → In cycle s.catalogue.cycles
    → is_public s.catalogue.scholarships cycle ≡ true
    → Both IsSite (step id cycle (opened s)).0

settle-IsSite :
    (r : Session Site × Result Outcome) (n : Counts)
    → Both IsSite r.0
    → IsSite (settle r n).0.current
settle-IsSite (db, raise e) n h = h.1
settle-IsSite (db, ok outcome) n h = h.0

module _ (step : Step) (others : ℕ → Site → Site) (keeps : StepKeeps step)
    (apart : (id : ℕ) (s : Site) → IsSite s → IsSite (others id s)) where
  pub found-IsSite :
      (found : Option ScholarshipCycle) (id : ℕ) (s : Site) (n : Counts)
      → public_cycle id s.catalogue ≡ found
      → IsSite s
      → IsSite (reverify_found step others found id (opened s) n).0.current
  found-IsSite none id s n e h = h
  found-IsSite (some cycle) id s n e h =
      let (m, test) =
        find-In (λ c. c.cycle_id == id && is_public s.catalogue.scholarships c) s.catalogue.cycles
          e in
      settle-IsSite (step id cycle (opened s)) n (keeps id cycle s h m (ground arith))

  each-IsSite :
      (ids : List ℕ) (db : Session Site) (n : Counts)
      → IsSite db.current
      → IsSite (reverify_each step others ids db n).0.current
  unfolding reverify_each
  each-IsSite [] db n h = h
  each-IsSite (id ∷ ids) db n h =
      let site = others id db.current in
      let (next, m) =
        reverify_found step others (public_cycle id site.catalogue) id (opened site) n in
      each-IsSite ids next m
        (found-IsSite (public_cycle id site.catalogue) id site n refl (apart id db.current h))

  ids-IsSite :
      (ids : Result (List ℕ)) (s : Site) → IsSite s → IsSite (reverify_ids step others ids s).0
  ids-IsSite (raise e) s h = h
  ids-IsSite (ok ids) s h = each-IsSite ids (opened s) no_counts h

-- Every outcome is one of a cycle that was checked.
abbrev pub Tallies : ℕ → Counts → Type 0
Tallies seen n = (n.renewed + n.flagged + n.deferred ≤ n.checked) × (n.checked ≤ seen)

settle-Tallies :
    (r : Session Site × Result Outcome) (seen : ℕ) (n : Counts)
    → Tallies seen n
    → Tallies (seen + 1) (settle r n).1
settle-Tallies (db, raise e) seen n h = (omega arith, omega arith)
settle-Tallies (db, ok renewed) seen n h = (omega arith, omega arith)
settle-Tallies (db, ok flagged) seen n h = (omega arith, omega arith)
settle-Tallies (db, ok deferred) seen n h = (omega arith, omega arith)

module _ (step : Step) (others : ℕ → Site → Site) where
  found-Tallies :
      (found : Option ScholarshipCycle) (id seen : ℕ) (db : Session Site) (n : Counts)
      → Tallies seen n
      → Tallies (seen + 1) (reverify_found step others found id db n).1
  found-Tallies none id seen db n h = (omega arith, omega arith)
  found-Tallies (some cycle) id seen db n h = settle-Tallies (step id cycle db) seen n h

  each-Tallies :
      (ids : List ℕ) (seen : ℕ) (db : Session Site) (n : Counts)
      → Tallies seen n
      → Tallies (seen + length ids) (reverify_each step others ids db n).1
  unfolding reverify_each
  each-Tallies [] seen db n h = (omega arith, omega arith)
  each-Tallies (id ∷ ids) seen db n h =
      let site = others id db.current in
      let (next, m) =
        reverify_found step others (public_cycle id site.catalogue) id (opened site) n in
      let rest =
        each-Tallies ids (seen + 1) next m
          (found-Tallies (public_cycle id site.catalogue) id seen (opened site) n h) in
      (rest.0, omega (arith, rest.1))

length-or_due :
    (due : Bool) (id : ℕ) (ids : List ℕ)
    → length (or_due due id ids) ≡ (if due then length ids + 1 else length ids)
length-or_due true id ids = omega arith
length-or_due false id ids = refl

module _ (zone_info : Text → ZoneLookup) (text_of : Json → Text)
    (fromisoformat : Text → Option DateTime) (cfg : FreshnessConfig) (now : Instant) where
  due_bounded :
      (limit found : ℕ) (candidates : List ScholarshipCycle) (ids : List ℕ)
      → due_cycles zone_info text_of fromisoformat cfg now limit found candidates ≡ ok ids
      → found + length ids ≤ max limit (found + 1)
  unfolding due_cycles
  due_bounded limit found [] ids h =
      let e : [] ≡ ids = ok-injective h in
      subst (λ l. found + length l ≤ max limit (found + 1)) e (ground arith)
  due_bounded limit found (cycle ∷ candidates) ids h =
      let (bucket, e, k) =
        bind_returned (bucket_of zone_info text_of fromisoformat cycle now cfg) _ h in
      by_due (λ f rest. due_bounded limit f candidates rest)
        (is_reverify_due bucket cycle.last_verified_at now cfg) k
    where
      by_due :
          ((f : ℕ) (rest : List ℕ)
            → due_cycles zone_info text_of fromisoformat cfg now limit f candidates ≡ ok rest
            → f + length rest ≤ max limit (f + 1))
          → (due : Bool)
          → (if leb limit (if due then found + 1 else found)
              then ok (or_due due cycle.cycle_id [])
              else (due_cycles zone_info text_of fromisoformat cfg now limit
                    (if due then found + 1 else found)
                    candidates
                  >>= λ rest. ok (or_due due cycle.cycle_id rest)))
            ≡ ok ids
          → found + length ids ≤ max limit (found + 1)
      by_due again true k = elim (Bool-cases (leb limit (found + 1))) [
        | inl y ↦
            let e : or_due true cycle.cycle_id [] ≡ ids = ok-injective (rw y at k) in
            subst (λ l. found + length l ≤ max limit (found + 1)) e (ground arith)
        | inr n ↦
            let (rest, e, f) =
              bind_returned
                (due_cycles zone_info text_of fromisoformat cfg now limit (found + 1) candidates) _
                (rw n at k) in
            let all_ids : or_due true cycle.cycle_id rest ≡ ids = ok-injective f in
            let bound = again (found + 1) rest e in
            subst (λ l. found + length l ≤ max limit (found + 1)) all_ids (ground arith)
      ]
      by_due again false k = elim (Bool-cases (leb limit found)) [
        | inl y ↦
            let e : or_due false cycle.cycle_id [] ≡ ids = ok-injective (rw y at k) in
            subst (λ l. found + length l ≤ max limit (found + 1)) e (ground arith)
        | inr n ↦
            let (rest, e, f) =
              bind_returned
                (due_cycles zone_info text_of fromisoformat cfg now limit found candidates) _
                (rw n at k) in
            let all_ids : or_due false cycle.cycle_id rest ≡ ids = ok-injective f in
            subst (λ l. found + length l ≤ max limit (found + 1)) all_ids (again found rest e)
      ]

module _ (zone_info : Text → ZoneLookup) (text_of : Json → Text)
    (fromisoformat : Text → Option DateTime) (urls : UrlLibrary) (id_text : ℕ → Text)
    (cfg : FreshnessConfig) (now : Instant) (clients : ℕ → Clients)
    (fresh_task fresh_page fresh_snapshot : ℕ → ℕ) where
  abbrev sweep : ℕ → (ℕ → Site → Site) → Site → Site × Result Counts
  sweep batch_limit others site =
      reverify_due_cycles zone_info text_of fromisoformat urls id_text cfg now clients fresh_task
        fresh_page fresh_snapshot batch_limit others site

  abbrev step_at : ℕ → Step
  step_at source_id =
      step_of zone_info text_of fromisoformat urls id_text cfg now clients fresh_task fresh_page
        fresh_snapshot source_id

  pub step-Keeps : (source_id : ℕ) → StepKeeps (step_at source_id)
  step-Keeps source_id id cycle s h m visible =
      let kept = Kept-public cycle s.catalogue h.catalogue m visible in
      let (k, k') =
        reverify_one-Both (λ s. Kept cycle.cycle_id s.catalogue) cycle (Kept-Stable cycle) zone_info
          text_of fromisoformat urls id_text cfg now (clients id) (fresh_snapshot id)
          (fresh_task id) (fresh_page id) source_id (opened s) (kept, kept) in
      let (t, t') =
        reverify_one-Both OneTaskEach cycle (OneTaskEach-Stable cycle.cycle_id) zone_info text_of
          fromisoformat urls id_text cfg now (clients id) (fresh_snapshot id) (fresh_task id)
          (fresh_page id) source_id (opened s) (h.tasks, h.tasks) in
      (record { catalogue = k.good; tasks = t }, record { catalogue = k'.good; tasks = t' })

  from-IsSite :
      (found : Option Source) (batch_limit : ℕ) (others : ℕ → Site → Site) (s : Site)
      → ((id : ℕ) (s : Site) → IsSite s → IsSite (others id s))
      → IsSite s
      → IsSite
          (reverify_from zone_info text_of fromisoformat urls id_text cfg now clients fresh_task
            fresh_page fresh_snapshot found batch_limit others s).0
  from-IsSite none batch_limit others s apart h = h
  from-IsSite (some source) batch_limit others s apart h =
      either-IsSite (not source.active) (s, ok no_counts)
        (reverify_ids (step_at source.source_id) others due s) h
        (ids-IsSite (step_at source.source_id) others (step-Keeps source.source_id) apart due s h)
    where
      due : Result (List ℕ)
      due =
          due_cycles zone_info text_of fromisoformat cfg now batch_limit 0
            (published_cycles scan_limit (λ id. false) s.catalogue).0

      either-IsSite :
          (b : Bool) (x y : Site × Result Counts)
          → IsSite x.0
          → IsSite y.0
          → IsSite (if b then x else y).0
      either-IsSite true x y p q = p
      either-IsSite false x y p q = q

  -- A sweep keeps the site, whatever each fetch answers, if what other sessions do between two cycles
  -- keeps it: no cycle of a withdrawn scholarship asserts an open application, the triples of cycles
  -- stay unique, and no cycle has two live review tasks.
  pub sweep-IsSite :
      (batch_limit : ℕ) (others : ℕ → Site → Site) (s : Site)
      → ((id : ℕ) (s : Site) → IsSite s → IsSite (others id s))
      → IsSite s
      → IsSite
          (reverify_due_cycles zone_info text_of fromisoformat urls id_text cfg now clients
            fresh_task fresh_page fresh_snapshot batch_limit others s).0
  unfolding reverify_due_cycles
  sweep-IsSite batch_limit others s apart h =
      from-IsSite (official_source s) batch_limit others s apart h

  ids-Tallies :
      (ids : Result (List ℕ)) (source_id batch_limit : ℕ) (others : ℕ → Site → Site) (s : Site)
      (n : Counts)
      → ((l : List ℕ) → ids ≡ ok l → length l ≤ max batch_limit 1)
      → (reverify_ids (step_at source_id) others ids s).1 ≡ ok n
      → Tallies (max batch_limit 1) n
  ids-Tallies (raise e) source_id batch_limit others s n bound h = cc
  ids-Tallies (ok ids) source_id batch_limit others s n bound h =
      let same = ok-injective h in
      let t =
        each-Tallies (step_at source_id) others ids 0 (opened s) no_counts
          (omega arith, omega arith) in
      let b = bound ids refl in
      subst (Tallies (max batch_limit 1)) same (t.0, omega (arith, t.1, b))

  from-Tallies :
      (found : Option Source) (batch_limit : ℕ) (others : ℕ → Site → Site) (s : Site) (n : Counts)
      → (reverify_from zone_info text_of fromisoformat urls id_text cfg now clients fresh_task
          fresh_page fresh_snapshot found batch_limit others s).1
        ≡ ok n
      → Tallies (max batch_limit 1) n
  from-Tallies none batch_limit others s n h =
      let same = ok-injective h in
      subst (Tallies (max batch_limit 1)) same (omega arith, omega arith)
  from-Tallies (some source) batch_limit others s n h = elim (Bool-cases source.active) [
    | inl e ↦
        ids-Tallies _ source.source_id batch_limit others s n
          (λ l p.
            let b =
              due_bounded zone_info text_of fromisoformat cfg now batch_limit 0
                (published_cycles scan_limit (λ id. false) s.catalogue).0 l p in
            omega (arith, b))
          (simp e at h)
    | inr e ↦
        let same : no_counts ≡ n = ok-injective (simp e at h) in
        subst (Tallies (max batch_limit 1)) same (omega arith, omega arith)
  ]

  -- A sweep that returns checked at most `batch_limit` cycles, or one if that is 0, and counts at most
  -- one outcome for each cycle that it checked.
  pub sweep-counts :
      (batch_limit : ℕ) (others : ℕ → Site → Site) (s : Site) (n : Counts)
      → (reverify_due_cycles zone_info text_of fromisoformat urls id_text cfg now clients fresh_task
          fresh_page fresh_snapshot batch_limit others s).1
        ≡ ok n
      → (n.renewed + n.flagged + n.deferred ≤ n.checked) × (n.checked ≤ max batch_limit 1)
  unfolding reverify_due_cycles
  sweep-counts batch_limit others s n h = from-Tallies (official_source s) batch_limit others s n h
