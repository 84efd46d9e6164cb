-- ===== src/Matching/Gates.antt =====
-- Which cycles a search returns.
use edufurthersf_be.Prelude.{
  ◌≡◌, refl, sym, ◌∙◌, ◌↔◌, ◌⊎◌, inl, inr, Bool, true, false, not, ◌&&◌, Option, none, some, List,
  map, arith, is_some, if◌then◌else◌,
}
use edufurthersf_be.Prelude.Text.{Text, mem, intersects, intersects_iff}
use edufurthersf_be.Json.{Json, Dict}
use edufurthersf_be.Taxonomy.{fold}
use edufurthersf_be.Matching.{
  SearchProfile, MatchDecision, normalised_set, is_mode, has_preference, accepts, evaluate_match,
}

-- Two sets have a member in common.
abbrev pub Meets : List Text → List Text → Type 0
Meets xs ys = (a : Text) × (mem a xs ≡ true) × (mem a ys ≡ true)

-- A preference for fields, if there is one, has a member among the fields.
abbrev pub Prefers : Option (List Text) → List Text → Type 0
Prefers none fields = Unit
Prefers (some accepted) fields = Meets fields (map fold accepted)

-- The field gate, for a profile with and without a preference.
field_gate :
    (preference : Option (List Text)) (fields : List Text)
    → ((has_preference preference && not (accepts preference fields)) ≡ false)
      ↔ Prefers preference fields
field_gate none fields = (λ h. tt, λ h. refl)
field_gate (some accepted) fields =
    let (to, from) = intersects_iff fields (map fold accepted) in
    (λ h. to (ground arith), λ h. ground (arith, from h))

-- The gates of `evaluate_match` as one test.
gates :
    (hosts teaches restricted from limited prefers covers : Bool) (d : MatchDecision)
    → is_some (
        if not hosts
        then none
        else if not teaches
        then none
        else if restricted && not from
        then none
        else if limited && prefers && not covers
        then none
        else some d)
      ≡ (hosts
          && teaches
          && not (restricted && not from)
          && not (limited && (prefers && not covers)))
gates hosts teaches restricted from limited prefers covers d = ground arith

gates_open :
    (hosts teaches restricted from limited barred : Bool)
    → (hosts && teaches && not (restricted && not from) && not (limited && barred)) ≡ true
    → (hosts ≡ true)
      × (teaches ≡ true)
      × ((restricted ≡ false) ⊎ (from ≡ true))
      × ((limited ≡ false) ⊎ (barred ≡ false))
gates_open hosts teaches restricted from limited barred h = ground arith

open_gates :
    (hosts teaches restricted from limited barred : Bool)
    → hosts ≡ true
    → teaches ≡ true
    → (restricted ≡ false) ⊎ (from ≡ true)
    → (limited ≡ false) ⊎ (barred ≡ false)
    → (hosts && teaches && not (restricted && not from) && not (limited && barred)) ≡ true
open_gates hosts teaches restricted from limited barred h t r l = ground arith

module _ (text_of : Json → Text) where
  -- What a cycle must offer to be returned for a profile.
  pub record IsEligible (profile : SearchProfile) (facts : Dict) : Type 0 where
    pub hosts :
        Meets (normalised_set text_of facts "destinations") (map fold profile.target_countries)
    pub teaches : Meets (map fold profile.program_levels) (normalised_set text_of facts "levels")
    pub admits :
        (is_mode "restricted" "origin_mode" facts ≡ false)
        ⊎ (mem (fold profile.origin_country) (normalised_set text_of facts "origins") ≡ true)
    pub covers :
        (is_mode "restricted" "field_mode" facts ≡ false)
        ⊎ Prefers profile.fields (normalised_set text_of facts "fields")

  -- The match of a profile with the facts of a cycle returns a decision exactly if the cycle hosts a study in a
  -- target country, offers a level of the profile, admits the origin if it restricts origins, and covers a
  -- preferred field if it restricts fields and the profile has a preference.
  pub match_exact :
      (profile : SearchProfile) (facts : Dict)
      → (is_some (evaluate_match text_of profile facts) ≡ true) ↔ IsEligible profile facts
  unfolding evaluate_match
  match_exact profile facts =
      let hosts =
        intersects (normalised_set text_of facts "destinations")
          (map fold profile.target_countries) in
      let teaches =
        intersects (map fold profile.program_levels) (normalised_set text_of facts "levels") in
      let restricted = is_mode "restricted" "origin_mode" facts in
      let from = mem (fold profile.origin_country) (normalised_set text_of facts "origins") in
      let limited = is_mode "restricted" "field_mode" facts in
      let fields = normalised_set text_of facts "fields" in
      let prefers = has_preference profile.fields in
      let covers = accepts profile.fields fields in
      let tests = gates hosts teaches restricted from limited prefers covers _ in
      let barred = prefers && not covers in
      (
        λ h.
            let (d, l, o, f) =
              gates_open hosts teaches restricted from limited barred (sym tests ∙ h) in
            record {
              hosts = (intersects_iff _ _).0 d;
              teaches = (intersects_iff _ _).0 l;
              admits = o;
              covers = elim f [
                | inl n ↦ inl n
                | inr n ↦ inr ((field_gate profile.fields fields).0 n)
              ];
            },
        λ e.
            tests
            ∙ open_gates hosts teaches restricted from limited barred
                ((intersects_iff _ _).1 e.hosts) ((intersects_iff _ _).1 e.teaches) e.admits
                (elim e.covers [
                  | inl n ↦ inl n
                  | inr n ↦ inr ((field_gate profile.fields fields).1 n)
                ]),
      )
