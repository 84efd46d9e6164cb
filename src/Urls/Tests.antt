-- ===== src/Urls/Tests.antt =====
-- Domains and paths of URLs at concrete inputs.
use edufurthersf_be.Prelude.{◌≡◌, refl, true, ◌⊎◌, all, [], ok}
use edufurthersf_be.Urls.Paths.{is_slash, canonical_path_twice}
use edufurthersf_be.Prelude.Text.{codes, text_eq, lower, strip}
use edufurthersf_be.Urls.{normalize_domain, canonical_path}

domain_run : normalize_domain (codes " .Daad.DE") ≡ ok (codes "daad.de")
unfolding normalize_domain lower strip
domain_run = refl

path_run : canonical_path (codes "/awards/") ≡ codes "/awards"
unfolding canonical_path text_eq
path_run = refl

slashes_run : canonical_path (codes "//") ≡ []
unfolding canonical_path text_eq
slashes_run = refl

canonical_path_twice_example :
    (canonical_path (canonical_path (codes "//")) ≡ canonical_path (codes "//"))
    ⊎ ((all is_slash (codes "//") ≡ true)
        × (canonical_path (codes "//") ≡ [])
        × (canonical_path (canonical_path (codes "//")) ≡ codes "/"))
canonical_path_twice_example = canonical_path_twice (codes "//")
