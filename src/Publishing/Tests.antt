-- ===== src/Publishing/Tests.antt =====
-- A publication at a concrete input.
use edufurthersf_be.Prelude.{ℕ, String, none, []}
use edufurthersf_be.Prelude.Text.{Text, codes}
use edufurthersf_be.Status.{open_verified}
use edufurthersf_be.Catalogue.{Catalogue}
use edufurthersf_be.Samples.{id_text, stored}
use edufurthersf_be.Publishing.{CycleValues, publish_cycle}

abbrev published_key : ℕ → Text → Text → String
published_key id key segment = "published"

abbrev intake : CycleValues
intake = record {
  provider_cycle_key = codes "2027";
  applicant_segment = codes "default";
  official_cycle_url = codes "https://a.test/2027";
  public_status = open_verified;
  facts = [];
  status_valid_until = none;
  last_verified_at = none;
}

abbrev after : Catalogue
after = (publish_cycle id_text published_key 11 5 0 1 intake (codes "reviewer") stored).0

-- The same intake with another URL.
abbrev moved : CycleValues
moved = record intake { official_cycle_url = codes "https://a.test/moved" }
