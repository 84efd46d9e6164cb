-- ===== src/Matching/Score.antt =====
-- The fit, the score and the reasons of a match.
use edufurthersf_be.Prelude.{
  ℕ, ◌+◌, ◌≤◌, ◌≡◌, ◌↔◌, subst, Bool, true, false, not, ◌&&◌, ◌||◌, none, some, List, [], ◌∷◌, map,
  arith, if◌then◌else◌,
}
use edufurthersf_be.Prelude.Text.{Text, mem, intersects}
use edufurthersf_be.Json.{Json, Dict, get_or, is_truthy, bool}
use edufurthersf_be.Taxonomy.{fold}
use edufurthersf_be.Matching.{
  SearchProfile, confirmed, Reason, field_compatible, origin_eligible, fresh_verified_evidence,
  MatchDecision, normalised_set, is_mode, has_preference, accepts, decision, evaluate_match,
}

-- The points of a list of reasons.
abbrev pub weight : Reason → ℕ
weight field_compatible = 25
weight origin_eligible = 15
weight fresh_verified_evidence = 10

abbrev pub points : List Reason → ℕ
points [] = 0
points (r ∷ rs) = weight r + points rs

abbrev pub is_origin : Reason → Bool
is_origin origin_eligible = true
is_origin _ = false

-- How the fit, the score and the caveats of a match hang together.
abbrev pub Scores : Bool → Bool → MatchDecision → Type 0
Scores origin_unknown field_unknown d =
    (d.score ≡ points d.reason_codes)
    × (d.score ≤ 50)
    × ((d.fit ≡ confirmed) ↔ ((origin_unknown ≡ false) × (field_unknown ≡ false)))
    × ((d.caveats ≡ []) ↔ (d.fit ≡ confirmed))

decision-Scores :
    (origin_unknown field_unknown field_ok origin_ok fresh : Bool)
    → Scores origin_unknown field_unknown
        (decision (origin_unknown || field_unknown) field_ok origin_ok fresh)
decision-Scores origin_unknown field_unknown field_ok origin_ok fresh = (
  ground arith,
  ground arith,
  (λ h. ground arith, λ h. ground arith),
  (λ h. ground arith, λ h. ground arith),
)

last_branch :
    (a b c e : Bool) (x d : MatchDecision)
    → (if a then none else if b then none else if c then none else if e then none else some x)
      ≡ some d
    → x ≡ d
last_branch a b c e x d h = ground arith

module _ (text_of : Json → Text) where
  abbrev pub from_origin : SearchProfile → Dict → Bool
  from_origin profile facts =
      mem (fold profile.origin_country) (normalised_set text_of facts "origins")

  returned_decision :
      (profile : SearchProfile) (facts : Dict) (d : MatchDecision)
      → evaluate_match text_of profile facts ≡ some d
      → decision
          (is_mode "unknown" "origin_mode" facts || is_mode "unknown" "field_mode" facts)
          (is_mode "all" "field_mode" facts
            || accepts profile.fields (normalised_set text_of facts "fields"))
          (is_mode "unrestricted" "origin_mode" facts || from_origin profile facts)
          (is_truthy (get_or "evidence_fresh" (bool false) facts))
        ≡ d
  unfolding evaluate_match
  returned_decision profile facts d h =
      last_branch
        (not (
          intersects (normalised_set text_of facts "destinations")
            (map fold profile.target_countries)))
        (not (intersects (map fold profile.program_levels) (normalised_set text_of facts "levels")))
        (is_mode "restricted" "origin_mode" facts && not (from_origin profile facts))
        (is_mode "restricted" "field_mode" facts
          && has_preference profile.fields
          && not (accepts profile.fields (normalised_set text_of facts "fields")))
        _ d h

  -- A match scores the points of its reasons, 50 at most; it is confirmed exactly if neither mode
  -- of the cycle is unknown, and carries a caveat exactly if it is not confirmed.
  pub match_score :
      (profile : SearchProfile) (facts : Dict) (d : MatchDecision)
      → evaluate_match text_of profile facts ≡ some d
      → Scores (is_mode "unknown" "origin_mode" facts) (is_mode "unknown" "field_mode" facts) d
  match_score profile facts d h =
      let origin_unknown = is_mode "unknown" "origin_mode" facts in
      let field_unknown = is_mode "unknown" "field_mode" facts in
      subst (Scores origin_unknown field_unknown) (returned_decision profile facts d h)
        (decision-Scores origin_unknown field_unknown _ _ _)
