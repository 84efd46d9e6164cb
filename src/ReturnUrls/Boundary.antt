-- ===== src/ReturnUrls/Boundary.antt =====
-- What an allowed return URL has in common with the allowed prefix.
use edufurthersf_be.Prelude.{
  ℕ, ◌≡◌, ◌≢◌, refl, ap, Bool, true, false, not, ◌||◌, Option, none, some, [], ◌∷◌, ◌++◌, ==_iff,
  arith, if◌then◌else◌, truthy, Result, ok, ◌>>=◌, bind_returned, ok-injective, Bool-cases, inl,
  inr,
}
use edufurthersf_be.Prelude.Text.{Text, codes, lower, text_eq, eq_of_text_eq}
use edufurthersf_be.ReturnUrls.{
  SplitUrl, default_port, port_of, same_port, text_or, starts_with, ends_with_slash, closed_path,
  is_known, has_credentials, is_allowed_return_url, compare_ports, compare_urls,
}

-- Where the target lies with respect to the allowed URL. The allowed path ends in a slash, so that
-- the rest of the target's path begins a segment of its own.
pub record IsWithin (allowed target : SplitUrl) : Type 0 where
  pub scheme : lower target.scheme ≡ lower allowed.scheme
  pub web : default_port (lower allowed.scheme) ≢ none
  pub anonymous : has_credentials target ≡ false
  pub host : lower (text_or [] target.hostname) ≡ lower (text_or [] allowed.hostname)
  pub named : truthy (text_or [] target.hostname) ≡ true
  pub ports :
      (p : Option ℕ) × (q : Option ℕ) × (target.port ≡ ok p)
      × (allowed.port ≡ ok q)
      × (port_of (lower allowed.scheme) p ≡ port_of (lower allowed.scheme) q)
  pub closed : ends_with_slash (closed_path allowed.path) ≡ true
  pub below : (rest : Text) × (closed_path target.path ≡ closed_path allowed.path ++ rest)

starts_with-split :
    (s prefix : Text) → starts_with s prefix ≡ true → (rest : Text) × (s ≡ prefix ++ rest)
unfolding starts_with
starts_with-split s [] h = (s, refl)
starts_with-split [] (p ∷ ps) h = cc
starts_with-split (c ∷ s) (p ∷ ps) h =
    let (rest, e) = starts_with-split s ps (ground arith) in
    let same : c ≡ p = ground arith in (rest, cc)

ends_with_slash-append : (s : Text) → ends_with_slash (s ++ codes "/") ≡ true
unfolding ends_with_slash
ends_with_slash-append [] = refl
ends_with_slash-append (c ∷ []) = refl
ends_with_slash-append (c ∷ d ∷ s) = ends_with_slash-append (d ∷ s)

ends_with_slash-closed : (s : Text) → ends_with_slash (closed_path s) ≡ true
unfolding closed_path
ends_with_slash-closed [] = ends_with_slash-append []
ends_with_slash-closed (c ∷ s) = elim (Bool-cases (ends_with_slash (c ∷ s))) [
  | inl e ↦ rw e e
  | inr e ↦ rw e (ends_with_slash-append (c ∷ s))
]

same_port-eq : (p q : Option ℕ) → same_port p q ≡ true → p ≡ q
same_port-eq none none h = refl
same_port-eq none (some b) h = cc
same_port-eq (some a) none h = cc
same_port-eq (some a) (some b) h = ap some ((==_iff a b).0 h)

known_port : (p : Option ℕ) → is_known p ≡ true → p ≢ none
unfolding is_known
known_port none h e = cc
known_port (some n) h e = cc

-- Four refusals in a row, and what follows them.
passed :
    (a b c d : Bool) (r : Result Bool)
    → (if a
        then ok false
        else if b
        then ok false
        else if c
        then ok false
        else if d
        then ok false
        else r)
      ≡ ok true
    → (a ≡ false) × (b ≡ false) × (c ≡ false) × (d ≡ false) × (r ≡ ok true)
passed a b c d r h = ground arith

last_test :
    (allowed target : SplitUrl) (tp q : Option ℕ)
    → compare_ports allowed target tp q ≡ true
    → (same_port (port_of (lower allowed.scheme) tp) (port_of (lower allowed.scheme) q) ≡ true)
      × (starts_with (closed_path target.path) (closed_path allowed.path) ≡ true)
unfolding compare_ports
last_test allowed target tp q h = ground arith

compare_urls-IsWithin :
    (allowed target : SplitUrl) → compare_urls allowed target ≡ ok true → IsWithin allowed target
unfolding compare_urls
compare_urls-IsWithin allowed target h =
    let scheme = lower allowed.scheme in
    let (web, anonymous, host, named, h3) =
      passed (not (is_known (default_port scheme)) || not (text_eq (lower target.scheme) scheme))
        (has_credentials target)
        (not (text_eq (lower (text_or [] target.hostname)) (lower (text_or [] allowed.hostname))))
        (not (truthy (text_or [] target.hostname)))
        (target.port >>= λ tp. allowed.port >>= λ q. ok (compare_ports allowed target tp q)) h in
    let (tp, g, h4) =
      bind_returned target.port (λ tp. allowed.port >>= λ q. ok (compare_ports allowed target tp q))
        h3 in
    let (q, k, h5) = bind_returned allowed.port (λ q. ok (compare_ports allowed target tp q)) h4 in
    let (ports, below) = last_test allowed target tp q (ok-injective h5) in
    record {
      scheme = eq_of_text_eq (lower target.scheme) scheme (ground arith);
      web = known_port (default_port scheme) (ground arith);
      anonymous = anonymous;
      host =
          eq_of_text_eq (lower (text_or [] target.hostname)) (lower (text_or [] allowed.hostname))
            (ground arith);
      named = ground arith;
      ports = (tp, q, g, k, same_port-eq (port_of scheme tp) (port_of scheme q) ports);
      closed = ends_with_slash-closed allowed.path;
      below = starts_with-split (closed_path target.path) (closed_path allowed.path) below;
    }

no_prefix : ok false ≡ ok true → ⊥
no_prefix h = cc (ok-injective h)

module _ (urlsplit : Text → Result SplitUrl) where
  -- An allowed return URL has the scheme (http or https), the host and the port of the allowed
  -- prefix, no credentials, and a path that continues the allowed path at a slash.
  pub allowed_below :
      (candidate prefix : Text)
      → is_allowed_return_url urlsplit candidate prefix ≡ ok true
      → (allowed : SplitUrl) × (target : SplitUrl) × (urlsplit prefix ≡ ok allowed)
        × (urlsplit candidate ≡ ok target)
        × IsWithin allowed target
  unfolding is_allowed_return_url
  allowed_below candidate [] h = absurd (no_prefix h)
  allowed_below candidate (p ∷ prefix) h =
      let (allowed, e, h1) =
        bind_returned (urlsplit (p ∷ prefix)) (λ a. urlsplit candidate >>= λ t. compare_urls a t)
          h in
      let (target, f, h2) = bind_returned (urlsplit candidate) (λ t. compare_urls allowed t) h1 in
      (allowed, target, e, f, compare_urls-IsWithin allowed target h2)
