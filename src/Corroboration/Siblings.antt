-- ===== src/Corroboration/Siblings.antt =====
-- src/app/infra/corroboration.py: the siblings of a discovery, from the tables of discoveries, source pages and
-- sources in src/app/domain/models.py, and what they come to.
use edufurthersf_be.Prelude.{
  ℕ, ◌≢◌, ◌≡◌, refl, sym, ap, ◌∙◌, inl, inr, Bool, true, false, not, ◌&&◌, Option, none, some, ◌⊎◌,
  List, [], ◌∷◌, find, any, In, any-In, truthy, leb, ◌==◌, is_some, if◌then◌else◌, Bool-cases,
  Option-cases, Result, ok, raise, lookup_error, ok-injective, arith,
}
use edufurthersf_be.Prelude.Text.{Text, text_eq, eq_of_text_eq}
use edufurthersf_be.Pages.{Source, SourcePage}
use edufurthersf_be.Corroboration.{
  ExtractedFacts, SiblingFact, CorroborationResult, Readings, evaluate_corroboration,
}
use edufurthersf_be.Corroboration.Exact.{corroboration_exact}

-- The columns of `discoveries` that the queries read.
pub record DiscoveryFacts : Type 0 where
  pub discovery_id : ℕ
  pub source_page_id : ℕ
  pub normalized_identity_key : Option Text
  pub split_from_discovery_id : Option ℕ
  pub extracted_facts : Option ExtractedFacts

pub record Tables : Type 0 where
  pub discoveries : List DiscoveryFacts
  pub pages : List SourcePage
  pub sources : List Source

abbrev pub id_of_source : Option Source → Option ℕ
id_of_source none = none
id_of_source (some source) = some source.source_id

abbrev pub source_of_page : Tables → Option SourcePage → Option ℕ
source_of_page db none = none
source_of_page db (some page) = id_of_source (find (λ s. s.source_id == page.source_id) db.sources)

-- The two joins from a discovery to its source.
abbrev pub source_of : Tables → DiscoveryFacts → Option ℕ
source_of db d = source_of_page db (find (λ p. p.page_id == d.source_page_id) db.pages)

abbrev pub has_key : Text → Option Text → Bool
has_key key none = false
has_key key (some other) = text_eq other key

abbrev pub is_sibling : Text → ℕ → DiscoveryFacts → Bool
is_sibling key own row =
    has_key key row.normalized_identity_key
    && not (row.discovery_id == own)
    && not (is_some row.split_from_discovery_id)

abbrev pub with_row : DiscoveryFacts → Option ℕ → List SiblingFact → List SiblingFact
with_row row none rest = rest
with_row row (some source) rest =
    record { discovery_id = row.discovery_id; source_id = source; facts = row.extracted_facts }
    ∷ rest

unfoldable pub siblings_among : Tables → Text → ℕ → List DiscoveryFacts → List SiblingFact
siblings_among db key own [] = []
siblings_among db key own (row ∷ rows) =
    let rest = siblings_among db key own rows in
    if is_sibling key own row then with_row row (source_of db row) rest else rest

unfoldable pub load_siblings : Tables → DiscoveryFacts → List SiblingFact
unfolding siblings_among
load_siblings db d = elim d.normalized_identity_key [
  | none ↦ []
  | some key ↦ if not (truthy key) then [] else siblings_among db key d.discovery_id db.discoveries
]

module _ {Amount Date : Type 0} (readings : Readings Amount Date) where
  unfoldable pub gather_corroboration : Tables → DiscoveryFacts → Result CorroborationResult
  unfolding load_siblings
  gather_corroboration db d = elim (source_of db d) [
    | none ↦ raise (lookup_error "Discovery's source could not be resolved")
    | some own ↦ ok (evaluate_corroboration readings own d.extracted_facts (load_siblings db d))
  ]

-- A row that counts as a second source of a discovery: of the same key, not made by an agent, and of another source.
pub record IsSecond (db : Tables) (d row : DiscoveryFacts) (key : Text) (own source : ℕ)
    : Type 0 where
  pub keyed : d.normalized_identity_key ≡ some key
  pub stored : In row db.discoveries
  pub same_key : row.normalized_identity_key ≡ some key
  pub another : row.discovery_id ≢ d.discovery_id
  pub no_agent : row.split_from_discovery_id ≡ none
  pub owned : source_of db d ≡ some own
  pub of_source : source_of db row ≡ some source
  pub differs : own ≢ source

has_key-eq : (key : Text) (o : Option Text) → has_key key o ≡ true → o ≡ some key
has_key-eq key none h = cc
has_key-eq key (some other) h = ap some (eq_of_text_eq other key h)

is_some-none : (o : Option ℕ) → not (is_some o) ≡ true → o ≡ none
is_some-none none h = refl
is_some-none (some n) h = cc

abbrev Origin : Tables → Text → ℕ → List DiscoveryFacts → SiblingFact → Type 0
Origin db key own rows b =
    (row : DiscoveryFacts) × In row rows
    × (is_sibling key own row ≡ true)
    × (source_of db row ≡ some b.source_id)

Origin-deeper :
    (db : Tables) (key : Text) (own : ℕ) (b : SiblingFact) (row : DiscoveryFacts)
    (rows : List DiscoveryFacts)
    → Origin db key own rows b
    → Origin db key own (row ∷ rows) b
Origin-deeper db key own b row rows (found, m, s, o) = (found, inr m, s, o)

with_row-In :
    (row : DiscoveryFacts) (b : SiblingFact) (o : Option ℕ) (rest : List SiblingFact)
    → In b (with_row row o rest)
    → (o ≡ some b.source_id) ⊎ In b rest
with_row-In row b none rest i = inr i
with_row-In row b (some source) rest (inl e) = inl (ap (λ c. some c.source_id) e)
with_row-In row b (some source) rest (inr i) = inr i

among-In :
    (db : Tables) (key : Text) (own : ℕ) (b : SiblingFact) (rows : List DiscoveryFacts)
    → In b (siblings_among db key own rows)
    → Origin db key own rows b
unfolding siblings_among
among-In db key own b [] i = elim i [ ]
among-In db key own b (row ∷ rows) i = elim (Bool-cases (is_sibling key own row)) [
  | inl e ↦
      elim (with_row-In row b (source_of db row) (siblings_among db key own rows) (rw e at i)) [
        | inl o ↦ (row, inl refl, e, o)
        | inr j ↦ Origin-deeper db key own b row rows (among-In db key own b rows j)
      ]
  | inr e ↦ Origin-deeper db key own b row rows (among-In db key own b rows (rw e at i))
]

load-In :
    (db : Tables) (d : DiscoveryFacts) (b : SiblingFact)
    → In b (load_siblings db d)
    → (key : Text) × (d.normalized_identity_key ≡ some key)
      × Origin db key d.discovery_id db.discoveries b
unfolding load_siblings
load-In db d b i = elim (Option-cases d.normalized_identity_key) [
  | inl e ↦ elim (rw (e, load_siblings) at i) [ ]
  | inr (key, e) ↦ elim (Bool-cases (truthy key)) [
    | inl t ↦
        (key, e, among-In db key d.discovery_id b db.discoveries (rw (e, t, load_siblings) at i))
    | inr t ↦ elim (rw (e, t, load_siblings) at i) [ ]
  ]
]

-- A corroboration that counts two sources or more has a second source among the stored discoveries: one with the
-- same identity key, with another id, of another source, and not made by an agent, whatever rows
-- agents have stored.
pub counts_another :
    {Amount Date : Type 0} (readings : Readings Amount Date) (db : Tables) (d : DiscoveryFacts)
    (r : CorroborationResult)
    → gather_corroboration readings db d ≡ ok r
    → leb 2 r.independent_source_count ≡ true
    → (row : DiscoveryFacts) × (key : Text) × (own : ℕ) × (source : ℕ) × IsSecond db d row key own
        source
unfolding gather_corroboration
counts_another readings db d r g two = elim (Option-cases (source_of db d)) [
  | inl e ↦ cc (rw (e, gather_corroboration) at g)
  | inr (own, e) ↦
      let same : evaluate_corroboration readings own d.extracted_facts (load_siblings db d) ≡ r =
        ok-injective (rw (e, gather_corroboration) at g) in
      let exact = corroboration_exact readings own d.extracted_facts (load_siblings db d) in
      let some_other : any (λ b. not (own == b.source_id)) (load_siblings db d) ≡ true =
        sym exact.0 ∙ ap (λ c. leb 2 c.independent_source_count) same ∙ two in
      let (b, i, n) = any-In (λ b. not (own == b.source_id)) (load_siblings db d) some_other in
      let (key, k, origin) = load-In db d b i in
      let (row, stored, sibling, o) = origin in
      (
        row,
        key,
        own,
        b.source_id,
        record {
          keyed = k;
          stored = stored;
          same_key = has_key-eq key row.normalized_identity_key (ground arith);
          another = λ e. ground arith;
          no_agent = is_some-none row.split_from_discovery_id (ground arith);
          owned = e;
          of_source = o;
          differs = λ e. ground arith;
        },
      )
]
