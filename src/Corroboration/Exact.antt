-- ===== src/Corroboration/Exact.antt =====
-- What the loop over the siblings comes to.
use edufurthersf_be.Prelude.{
  ℕ, ◌≤◌, ◌≡◌, refl, sym, ap, ◌∙◌, inl, inr, Bool, true, false, not, ◌||◌, Option, none, some, List,
  [], ◌∷◌, ◌++◌, map, any, keep, length, length-append, leb, le→leb, ◌==◌, if◌then◌else◌,
  Bool-cases, arith,
}
use edufurthersf_be.Prelude.Text.{Text}
use edufurthersf_be.Corroboration.{
  ExtractedFacts, SiblingFact, CorroborationResult, Tally, Readings, amounts_of, deadlines_of,
  unless_absent, add_source, agrees_amount, agrees_deadline, tally, tallied, evaluate_corroboration,
}

append_nil : (xs : List ℕ) → xs ++ [] ≡ xs
append_nil [] = refl
append_nil (x ∷ xs) = ap (λ r. x ∷ r) (append_nil xs)

append_assoc : (xs ys zs : List ℕ) → (xs ++ ys) ++ zs ≡ xs ++ (ys ++ zs)
append_assoc [] ys zs = refl
append_assoc (x ∷ xs) ys zs = ap (λ r. x ∷ r) (append_assoc xs ys zs)

length-add_source : (s : ℕ) (sources : List ℕ) → length sources ≤ length (add_source s sources)
length-add_source s sources = ground (arith, length-append sources (s ∷ []))

module _ {Amount Date : Type 0} (readings : Readings Amount Date)
    (amounts deadlines : List Text) where
  abbrev pub corroborates : SiblingFact → Bool
  corroborates sibling =
      agrees_amount readings amounts sibling || agrees_deadline readings deadlines sibling

  tallied_amount :
      (siblings : List SiblingFact) (s : Tally)
      → (tallied readings amounts deadlines siblings s).amount_corroborated ≡ (
          if any (agrees_amount readings amounts) siblings
          then some true
          else s.amount_corroborated)
  unfolding tallied
  tallied_amount [] s = refl
  tallied_amount (b ∷ bs) s =
      tallied_amount bs (tally readings amounts deadlines b s) ∙ ground arith

  tallied_deadline :
      (siblings : List SiblingFact) (s : Tally)
      → (tallied readings amounts deadlines siblings s).deadline_corroborated ≡ (
          if any (agrees_deadline readings deadlines) siblings
          then some true
          else s.deadline_corroborated)
  unfolding tallied
  tallied_deadline [] s = refl
  tallied_deadline (b ∷ bs) s =
      tallied_deadline bs (tally readings amounts deadlines b s) ∙ ground arith

  tallied_ids :
      (siblings : List SiblingFact) (s : Tally)
      → (tallied readings amounts deadlines siblings s).corroborating_ids
        ≡ s.corroborating_ids ++ map (λ b. b.discovery_id) (keep corroborates siblings)
  unfolding tallied
  tallied_ids [] s = sym (append_nil s.corroborating_ids)
  tallied_ids (b ∷ bs) s = elim (Bool-cases (corroborates b)) [
    | inl e ↦
        tallied_ids bs (tally readings amounts deadlines b s)
        ∙ rw e (
            append_assoc s.corroborating_ids (b.discovery_id ∷ [])
              (map (λ c. c.discovery_id) (keep corroborates bs)))
    | inr e ↦ tallied_ids bs (tally readings amounts deadlines b s) ∙ rw e refl
  ]

  tallied_more :
      (siblings : List SiblingFact) (s : Tally)
      → length s.distinct_sources
        ≤ length (tallied readings amounts deadlines siblings s).distinct_sources
  unfolding tallied
  tallied_more [] s = omega arith
  tallied_more (b ∷ bs) s =
      let here = length-add_source b.source_id s.distinct_sources in
      let rest = tallied_more bs (tally readings amounts deadlines b s) in omega arith

  tallied_sources :
      (siblings : List SiblingFact) (s : Tally) (own : ℕ)
      → s.distinct_sources ≡ own ∷ []
      → leb 2 (length (tallied readings amounts deadlines siblings s).distinct_sources)
        ≡ any (λ b. not (own == b.source_id)) siblings
  unfolding tallied
  tallied_sources [] s own e = rw e refl
  tallied_sources (b ∷ bs) s own e = elim (Bool-cases (own == b.source_id)) [
    | inl same ↦
        let kept : add_source b.source_id s.distinct_sources ≡ own ∷ [] = rw (e, same) refl in
        tallied_sources bs (tally readings amounts deadlines b s) own kept ∙ rw same refl
    | inr other ↦
        let two : add_source b.source_id s.distinct_sources ≡ own ∷ b.source_id ∷ [] =
          rw (e, other) refl in
        let more : 2
            ≤ length
                (tallied readings amounts deadlines bs
                  (tally readings amounts deadlines b s)).distinct_sources =
          rw (ap length two) at (tallied_more bs (tally readings amounts deadlines b s)) in
        le→leb 2
          (length
            (tallied readings amounts deadlines bs
              (tally readings amounts deadlines b s)).distinct_sources)
          more
        ∙ rw other refl
  ]

-- A flag of the result: not applicable where nothing is asserted, and otherwise whether any sibling agrees.
abbrev pub flag : List Text → Bool → Option Bool
flag [] agreed = none
flag (v ∷ values) agreed = some agreed

module _ {Amount Date : Type 0} (readings : Readings Amount Date) where
  abbrev pub IsEvaluated :
      ℕ → Option ExtractedFacts → List SiblingFact → CorroborationResult → Type 0
  IsEvaluated own facts siblings r =
      (leb 2 r.independent_source_count ≡ any (λ b. not (own == b.source_id)) siblings)
      × (r.amount_corroborated
          ≡ flag (amounts_of facts) (any (agrees_amount readings (amounts_of facts)) siblings))
      × (r.deadline_corroborated
          ≡ flag (deadlines_of facts)
              (any (agrees_deadline readings (deadlines_of facts)) siblings))
      × (r.corroborating_discovery_ids
          ≡ map (λ b. b.discovery_id)
              (keep (corroborates readings (amounts_of facts) (deadlines_of facts)) siblings))

  none_agrees : (siblings : List SiblingFact) → any (agrees_amount readings []) siblings ≡ false
  none_agrees [] = refl
  none_agrees (b ∷ bs) = none_agrees bs

  none_agrees_deadline :
      (siblings : List SiblingFact) → any (agrees_deadline readings []) siblings ≡ false
  none_agrees_deadline [] = refl
  none_agrees_deadline (b ∷ bs) = none_agrees_deadline bs

  amount_flag :
      (own : List Text) (siblings : List SiblingFact)
      → (if any (agrees_amount readings own) siblings then some true else unless_absent own)
        ≡ flag own (any (agrees_amount readings own) siblings)
  amount_flag [] siblings = rw (none_agrees siblings) refl
  amount_flag (v ∷ own) siblings = ground arith

  deadline_flag :
      (own : List Text) (siblings : List SiblingFact)
      → (if any (agrees_deadline readings own) siblings then some true else unless_absent own)
        ≡ flag own (any (agrees_deadline readings own) siblings)
  deadline_flag [] siblings = rw (none_agrees_deadline siblings) refl
  deadline_flag (v ∷ own) siblings = ground arith

  -- However amounts and deadlines are read and compared: the result counts two sources or more exactly if some
  -- sibling is of another source than the discovery; each of its two flags is none if the discovery asserts no
  -- such value, and otherwise tells whether any sibling, of whichever source, states one that was read as
  -- the same; and it lists exactly the siblings that agree on either, in their order.
  pub corroboration_exact :
      (own : ℕ) (facts : Option ExtractedFacts) (siblings : List SiblingFact)
      → IsEvaluated own facts siblings (evaluate_corroboration readings own facts siblings)
  unfolding evaluate_corroboration
  corroboration_exact own facts siblings =
      let amounts = amounts_of facts in
      let deadlines = deadlines_of facts in
      let start : Tally = record {
        distinct_sources = own ∷ [];
        amount_corroborated = unless_absent amounts;
        deadline_corroborated = unless_absent deadlines;
        corroborating_ids = [];
      } in
      (
        tallied_sources readings amounts deadlines siblings start own refl,
        tallied_amount readings amounts deadlines siblings start ∙ amount_flag amounts siblings,
        tallied_deadline readings amounts deadlines siblings start
            ∙ deadline_flag deadlines siblings,
        tallied_ids readings amounts deadlines siblings start,
      )
