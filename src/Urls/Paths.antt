-- ===== src/Urls/Paths.antt =====
-- The path of a URL, and the rules for its domain.
use edufurthersf_be.Prelude.{
  ℕ, ◌≡◌, refl, ap, ◌∙◌, ◌⊎◌, inl, inr, Bool, true, false, not, ◌&&◌, [], ◌∷◌, arith, ◌==◌,
  if◌then◌else◌, Bool-cases, truthy, all,
}
use edufurthersf_be.Prelude.Text.{Text, codes, text_eq}
use edufurthersf_be.ReturnUrls.{ends_with_slash}
use edufurthersf_be.Urls.{rstrip_slashes, canonical_path}

abbrev pub is_slash : ℕ → Bool
is_slash c = c == b'/'

rstrip_empty : (s : Text) → all is_slash s ≡ true → rstrip_slashes s ≡ []
unfolding rstrip_slashes
rstrip_empty [] h = refl
rstrip_empty (c ∷ s) h =
    let e : is_slash c ≡ true = ground arith in
    let r = rstrip_empty s (ground arith) in rw (e, r) refl

rstrip_none : (s : Text) → rstrip_slashes s ≡ [] → all is_slash s ≡ true
unfolding rstrip_slashes
rstrip_none [] h = refl
rstrip_none (c ∷ s) h = ground (arith, rstrip_none s)

-- What is left has no slash at its end.
rstrip_ends : (s : Text) → ends_with_slash (rstrip_slashes s) ≡ false
unfolding rstrip_slashes ends_with_slash
rstrip_ends [] = refl
rstrip_ends (c ∷ s) = one c (rstrip_slashes s) (rstrip_ends s)
  where
    one :
        (c : ℕ) (rest : Text)
        → ends_with_slash rest ≡ false
        → ends_with_slash (if is_slash c && not (truthy rest) then [] else c ∷ rest) ≡ false
    one c [] h = ground arith
    one c (d ∷ rest) h = ground arith

-- A text without a slash at its end is kept.
rstrip_fixed : (s : Text) → ends_with_slash s ≡ false → rstrip_slashes s ≡ s
unfolding rstrip_slashes ends_with_slash
rstrip_fixed [] h = refl
rstrip_fixed (c ∷ []) h = ground arith
rstrip_fixed (c ∷ d ∷ s) h =
    let rest : rstrip_slashes (d ∷ s) ≡ d ∷ s = rstrip_fixed (d ∷ s) h in
    ap (λ r. if is_slash c && not (truthy r) then [] else c ∷ r) rest ∙ keeps
  where
    keeps : (if is_slash c && false then [] else c ∷ d ∷ s) ≡ c ∷ d ∷ s
    keeps = ground arith

trimmed_again : (r : Text) → ends_with_slash r ≡ false → (r ≡ []) ⊎ (canonical_path r ≡ r)
unfolding canonical_path
trimmed_again [] h = inl refl
trimmed_again (c ∷ s) h = inr (elim (Bool-cases (text_eq (c ∷ s) (codes "/"))) [
  | inl e ↦ rw e refl
  | inr e ↦ rw e (rstrip_fixed (c ∷ s) h)
])

-- The path of a URL is in its final form after one pass, unless it consists of slashes alone and is
-- not the root: then the path is dropped, and a second pass makes it the root.
pub canonical_path_twice :
    (p : Text)
    → (canonical_path (canonical_path p) ≡ canonical_path p)
      ⊎ ((all is_slash p ≡ true)
          × (canonical_path p ≡ [])
          × (canonical_path (canonical_path p) ≡ codes "/"))
unfolding canonical_path text_eq
canonical_path_twice [] = inl refl
canonical_path_twice (c ∷ s) = elim (Bool-cases (text_eq (c ∷ s) (codes "/"))) [
  | inl e ↦ inl (rw (e, e) refl)
  | inr e ↦ elim (trimmed_again (rstrip_slashes (c ∷ s)) (rstrip_ends (c ∷ s))) [
    | inl none_left ↦
        inr (rstrip_none (c ∷ s) none_left, rw (e, none_left) refl, rw (e, none_left) refl)
    | inr same ↦ inl (rw e same)
  ]
]
