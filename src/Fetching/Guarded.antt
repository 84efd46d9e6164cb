-- ===== src/Fetching/Guarded.antt =====
-- Which URLs a fetch requests.
use edufurthersf_be.Prelude.{
  ◌>>=◌, ℕ, ◌≡◌, ◌≤◌, refl, subst, inl, inr, Bool, true, false, not, ◌&&◌, Option, none, some, List,
  [], ◌∷◌, arith, ltb, truthy, all, length, All, Bool-cases, Result, ok, raise, bind_returned,
  check_passed, ok-injective,
}
use edufurthersf_be.Prelude.Text.{Text}
use edufurthersf_be.ReturnUrls.{SplitUrl, text_or}
use edufurthersf_be.Urls.{UrlLibrary, canonicalize_url}
use edufurthersf_be.Fetching.{
  FetchedSource, Address, Response, is_public_address, is_approved, is_public_host, is_redirect,
  validate_source_url, finish, follow, redirect, answer, request, fetch_source,
}

all-All : (p : Address → Bool) (t : List Address) → all p t ≡ true → All (λ a. p a ≡ true) t
all-All p [] h = tt
all-All p (a ∷ t) h = (ground arith, all-All p t (ground arith))

public_addresses :
    (found : Option (List Address)) (b : Bool)
    → is_public_host found ≡ ok b
    → not b ≡ false
    → (addresses : List Address) × (found ≡ some addresses)
      × (truthy addresses ≡ true)
      × All (λ a. is_public_address a ≡ true) addresses
public_addresses none b h n = cc
public_addresses (some addresses) b h n =
    let e : (truthy addresses && all is_public_address addresses) ≡ b = ok-injective h in
    (addresses, refl, ground arith, all-All is_public_address addresses (ground arith))

module _ (urls : UrlLibrary) (getaddrinfo : Text → Option (List Address)) where
  -- The host of a URL is approved, and resolves to public addresses only.
  pub record IsGuarded (approved : List Text) (url : Text) : Type 0 where
    pub parts : SplitUrl
    pub split : urls.urlsplit url ≡ ok parts
    pub approved_host : is_approved approved (text_or [] parts.hostname) ≡ true
    pub addresses : List Address
    pub resolved : getaddrinfo (text_or [] parts.hostname) ≡ some addresses
    pub some_address : truthy addresses ≡ true
    pub all_public : All (λ a. is_public_address a ≡ true) addresses

  pub validate-IsGuarded :
      (url normalized : Text) (approved : List Text)
      → validate_source_url urls getaddrinfo url approved ≡ ok normalized
      → IsGuarded approved normalized
  unfolding validate_source_url
  validate-IsGuarded url normalized approved h =
      let (n, e, h1) = bind_returned (canonicalize_url urls url) _ h in
      let (parts, f, h2) = bind_returned (urls.urlsplit n) _ h1 in
      let hostname = text_or [] parts.hostname in
      let (ok_host, h3) = check_passed (not (is_approved approved hostname)) _ _ h2 in
      let (b, g, h4) = bind_returned (is_public_host (getaddrinfo hostname)) _ h3 in
      let (ok_public, h5) = check_passed (not b) _ _ h4 in
      let (addresses, r, t, a) = public_addresses (getaddrinfo hostname) b g ok_public in
      subst (IsGuarded approved) (ok-injective h5) (record {
        parts = parts;
        split = f;
        approved_host = ground arith;
        addresses = addresses;
        resolved = r;
        some_address = t;
        all_public = a;
      })

  module _ (client_get : Text → Result Response) (max_bytes : ℕ) where
    -- What is returned of the response to a request.
    abbrev pub Returns : FetchedSource → Response → Type 0
    Returns f response =
        (f.status_code ≡ response.status_code)
        × (f.content ≡ response.content)
        × (f.content_type ≡ response.content_type)
        × (length response.content ≤ max_bytes)

    -- The last of the requested URLs.
    abbrev pub IsLast : Text → List Text → Type 0
    IsLast url [] = ⊥
    IsLast url (u ∷ []) = u ≡ url
    IsLast url (u ∷ v ∷ requested) = IsLast url (v ∷ requested)

    -- A result is the response to the last request.
    abbrev pub IsAnswer : List Text → Result FetchedSource → Type 0
    IsAnswer requested (raise e) = Unit
    IsAnswer requested (ok f) =
        IsLast f.url requested
        × ((response : Response) × (client_get f.url ≡ ok response) × Returns f response)

    abbrev pub Guards : List Text → List Text × Result FetchedSource → Type 0
    Guards approved r = All (IsGuarded approved) r.0 × (length r.0 ≤ 2) × IsAnswer r.0 r.1

    answered :
        (requested : List Text) (r : Result FetchedSource)
        → ((f : FetchedSource) → r ≡ ok f → IsAnswer requested (ok f))
        → IsAnswer requested r
    answered requested (raise e) h = tt
    answered requested (ok f) h = h f refl

    finish_lem :
        (normalized : Text) (response : Response) (f : FetchedSource)
        → client_get normalized ≡ ok response
        → finish urls getaddrinfo client_get max_bytes normalized response ≡ ok f
        → (normalized ≡ f.url) × ((r : Response) × (client_get f.url ≡ ok r) × Returns f r)
    finish_lem normalized response f got h =
        elim (Bool-cases (ltb max_bytes (length response.content))) [
          | inl e ↦ cc (rw e at h)
          | inr e ↦
              let same = ok-injective (rw e at h) in
              subst
                (λ x.
                  (normalized ≡ x.url) × ((r : Response) × (client_get x.url ≡ ok r) × Returns x r))
                same (refl, (response, got, (refl, refl, refl, ground arith)))
        ]

    follow-Guards :
        (normalized : Text) (approved : List Text) (next : Result Text)
        → IsGuarded approved normalized
        → ((r : Text) → next ≡ ok r → IsGuarded approved r)
        → Guards approved (follow urls getaddrinfo client_get max_bytes normalized next)
    follow-Guards normalized approved (raise e) g k = ((g, tt), omega arith, tt)
    follow-Guards normalized approved (ok redirected) g k = (
      (g, (k redirected refl, tt)),
      omega arith,
      answered (normalized ∷ redirected ∷ [])
          (client_get redirected >>= λ response.
            finish urls getaddrinfo client_get max_bytes redirected response)
          (λ f h.
            let (response, e, h1) = bind_returned (client_get redirected) _ h in
            let (same, of_response) = finish_lem redirected response f e h1 in (same, of_response)),
    )

    redirect-Guards :
        (normalized : Text) (approved : List Text) (location : Option Text)
        → IsGuarded approved normalized
        → Guards approved
            (redirect urls getaddrinfo client_get max_bytes normalized approved location)
    redirect-Guards normalized approved none g = ((g, tt), omega arith, tt)
    redirect-Guards normalized approved (some []) g = ((g, tt), omega arith, tt)
    redirect-Guards normalized approved (some (c ∷ location)) g =
        follow-Guards normalized approved
          (validate_source_url urls getaddrinfo (c ∷ location) approved) g
          (λ r e. validate-IsGuarded (c ∷ location) r approved e)

    answer-Guards :
        (normalized : Text) (approved : List Text) (r : Result Response)
        → IsGuarded approved normalized
        → client_get normalized ≡ r
        → Guards approved (answer urls getaddrinfo client_get max_bytes normalized approved r)
    answer-Guards normalized approved (raise e) g got = ((g, tt), omega arith, tt)
    answer-Guards normalized approved (ok response) g got =
        elim (Bool-cases (is_redirect response.status_code)) [
          | inl e ↦ rw e (redirect-Guards normalized approved response.location g)
          | inr e ↦ rw e (
            (g, tt),
            omega arith,
            answered (normalized ∷ [])
                (finish urls getaddrinfo client_get max_bytes normalized response)
                (λ f h.
                  let (same, of_response) = finish_lem normalized response f got h in
                  (same, of_response)),
          )
        ]

    request-Guards :
        (r : Result Text) (approved : List Text)
        → ((n : Text) → r ≡ ok n → IsGuarded approved n)
        → Guards approved (request urls getaddrinfo client_get max_bytes r approved)
    request-Guards (raise e) approved k = (tt, omega arith, tt)
    request-Guards (ok normalized) approved k =
        answer-Guards normalized approved (client_get normalized) (k normalized refl) refl

    -- A fetch requests at most two URLs, and the host of each, that of a redirect too, is approved and resolves to
    -- public addresses only. A fetch that returns returns the status, the content and the type of the response to
    -- the last of these requests, under its URL, and the content has at most `max_bytes` bytes.
    pub fetch-IsGuarded :
        (url : Text) (approved : List Text)
        → let (requested, result) =
            fetch_source urls getaddrinfo client_get max_bytes url approved in
          All (IsGuarded approved) requested × (length requested ≤ 2) × IsAnswer requested result
    unfolding fetch_source
    fetch-IsGuarded url approved =
        request-Guards (validate_source_url urls getaddrinfo url approved) approved
          (λ n e. validate-IsGuarded url n approved e)
