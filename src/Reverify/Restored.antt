-- ===== src/Reverify/Restored.antt =====
-- What becomes of a cycle that was made unknown for staleness and is restored by a recheck.
use edufurthersf_be.Prelude.{
  ◌≡◌, ◌≤◌, refl, sym, ap, ◌∙◌, subst, Bool, true, false, Option, some, leb, if◌then◌else◌, ok,
}
use edufurthersf_be.Prelude.Text.{Text}
use edufurthersf_be.Time.{Instant}
use edufurthersf_be.Zones.{DateTime, ZoneLookup}
use edufurthersf_be.Json.{Json}
use edufurthersf_be.Status.{open_verified, status_unknown}
use edufurthersf_be.Freshness.{FreshnessConfig}
use edufurthersf_be.Catalogue.{ScholarshipCycle}
use edufurthersf_be.Refresh.{read_status, refresh_one_status}
use edufurthersf_be.Refresh.Marks.{marks, unknown-unmarked, passes}
use edufurthersf_be.Reverify.{restores, renew}

restored :
    (now : Instant) (d : ScholarshipCycle)
    → d.public_status ≡ status_unknown
    → d.auto_downgraded ≡ true
    → renew now d ≡ record d {
      last_verified_at = some now;
      public_status = open_verified;
      auto_downgraded = false;
    }
restored now d u m = let hit : restores d ≡ true = rw (u, m) refl in rw hit refl

module _ (zone_info : Text → ZoneLookup) (text_of : Json → Text)
    (fromisoformat : Text → Option DateTime) where
  -- A cycle that a refresh at `now` made unknown for staleness, and that a recheck at `renewed_at` then
  -- restores, is stored as open, but no read from `now` on returns open: it keeps the validity that has
  -- passed. The next refresh makes it unknown again, without the mark that a recheck could take back.
  pub restored_hidden :
      (cfg : FreshnessConfig) (now renewed_at later : Instant) (c d e : ScholarshipCycle)
      (changed changed' : Bool)
      → refresh_one_status zone_info text_of fromisoformat cfg now c ≡ ok (d, changed)
      → c.auto_downgraded ≡ false
      → d.auto_downgraded ≡ true
      → now ≤ later
      → refresh_one_status zone_info text_of fromisoformat cfg later (renew renewed_at d)
        ≡ ok (e, changed')
      → ((renew renewed_at d).public_status ≡ open_verified)
        × (read_status zone_info text_of fromisoformat (renew renewed_at d) later
            ≡ ok status_unknown)
        × (e.public_status ≡ status_unknown)
        × (e.auto_downgraded ≡ false)
  restored_hidden cfg now renewed_at later c d e changed changed' h m o after k =
      let s = marks zone_info text_of fromisoformat cfg now c d changed h m o in
      let r : ScholarshipCycle = record d {
        last_verified_at = some renewed_at;
        public_status = open_verified;
        auto_downgraded = false;
      } in
      let same : renew renewed_at d ≡ r = restored renewed_at d s.unknown o in
      let late : leb s.until later ≡ true = passes s.until now later s.passed after in
      let hidden : read_status zone_info text_of fromisoformat r later ≡ ok status_unknown =
        rw s.stored
          (s.reads later ∙ ap (λ x. ok (if x then status_unknown else open_verified)) late) in
      let (u, f) = unknown-unmarked zone_info text_of fromisoformat cfg later r e changed' hidden (
        subst
          (λ x. refresh_one_status zone_info text_of fromisoformat cfg later x ≡ ok (e, changed'))
          same k) in
      (
        ap (λ x. x.public_status) same,
        subst (λ x. read_status zone_info text_of fromisoformat x later ≡ ok status_unknown)
            (sym same) hidden,
        u,
        f,
      )
