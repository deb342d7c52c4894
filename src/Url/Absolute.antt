-- ===== src/Url/Absolute.antt =====
-- A URL with a scheme, a host and a path, none of which has bytes that `net/url` reads otherwise.
use terraform_provider_azure.Base.{
  ℕ, ◌≡◌, refl, ◌≢◌, Bool, true, false, Option, some, [], ◌∷◌, ◌++◌, arith, ◌==◌, Str, bytes,
  str_eq, All, All-append, All-weaken, ok, ◌&&◌, not, all,
}
use terraform_provider_azure.Text.{Avoids, has_prefix, to_lower}
use terraform_provider_azure.Url.{
  Url, get_scheme_from, before, from_first, unescape, IsPathByte, unescape-plain, has_authority,
  rooted, after_scheme, parse_raw, parse_url, parse_request_uri,
}

-- A byte of a host, or of a path, that no part of the parsing stops at.
abbrev pub IsHostByte : ℕ → Type 0
IsHostByte c = (c ≢ b'/') × (c ≢ b'?') × (c ≢ b'#')

abbrev pub IsPlainByte : ℕ → Type 0
IsPlainByte c = IsPathByte c × (c ≢ b'#')

abbrev host_byte : ℕ → Bool
host_byte c = not (c == b'/') && not (c == b'?') && not (c == b'#')

abbrev plain_byte : ℕ → Bool
plain_byte c = not (c == b'%') && not (c == b'?') && not (c == b'#')

unfoldable pub host_text : Str → Bool
host_text = all host_byte

unfoldable pub plain_text : Str → Bool
plain_text = all plain_byte

-- A literal text is checked by evaluation.
pub host_text_sound : (s : Str) → host_text s ≡ true → All IsHostByte s
unfolding host_text
host_text_sound [] h = tt
host_text_sound (c ∷ s) h = ground (arith, host_text_sound s)

pub plain_text_sound : (s : Str) → plain_text s ≡ true → All IsPlainByte s
unfolding plain_text
plain_text_sound [] h = tt
plain_text_sound (c ∷ s) h = ground (arith, plain_text_sound s)

before-Avoids : (sep : ℕ) (s : Str) → Avoids sep s → before sep s ≡ s
unfolding before
before-Avoids sep [] h = refl
before-Avoids sep (c ∷ s) h = ground (arith, before-Avoids sep s h.1)

before-append : (sep : ℕ) (w s : Str) → Avoids sep w → before sep (w ++ sep ∷ s) ≡ w
unfolding before
before-append sep [] s h = ground arith
before-append sep (c ∷ w) s h = ground (arith, before-append sep w s h.1)

from_first-append : (sep : ℕ) (w s : Str) → Avoids sep w → from_first sep (w ++ sep ∷ s) ≡ sep ∷ s
unfolding from_first
from_first-append sep [] s h = ground arith
from_first-append sep (c ∷ w) s h = ground (arith, from_first-append sep w s h.1)

from_first-Avoids : (sep : ℕ) (s : Str) → Avoids sep s → from_first sep s ≡ []
unfolding from_first
from_first-Avoids sep [] h = refl
from_first-Avoids sep (c ∷ s) h = ground (arith, from_first-Avoids sep s h.1)

abbrev authority_path : Str → Str → Str
authority_path host path = host ++ b'/' ∷ path

abbrev absolute : Str → Str → Str
absolute host path = bytes "https://" ++ authority_path host path

abbrev parsed : Str → Str → Url
parsed host path = record { scheme = bytes "https"; host = host; path = b'/' ∷ path }

module _ (auth : Str → Option Str) (host path : Str) (plain_host : All IsHostByte host)
    (path_bytes : All IsPathByte path) (known : auth host ≡ some host) where
  host-Avoids : Avoids b'/' host
  host-Avoids = All-weaken IsHostByte (λ c. c ≢ b'/') host (λ c h. h.0) plain_host

  rest-Avoids_query : Avoids b'?' (authority_path host path)
  rest-Avoids_query =
      All-append (λ c. c ≢ b'?') host (b'/' ∷ path)
        (All-weaken IsHostByte (λ c. c ≢ b'?') host (λ c h. h.1) plain_host)
        (omega arith, All-weaken IsPathByte (λ c. c ≢ b'?') path (λ c h. h.1) path_bytes)

  rooted-absolute :
      (via : Bool)
      → rooted auth via (bytes "https") (bytes "//" ++ authority_path host path)
        ≡ ok (parsed host path)
  unfolding rooted has_authority has_prefix
  rooted-absolute via =
      rw (before-append b'/' host path host-Avoids, known)
        (rw
          (
            from_first-append b'/' host path host-Avoids,
            unescape-plain (b'/' ∷ path) ((omega arith, omega arith), path_bytes),
          )
          refl)

  parse_raw-absolute :
      (via : Bool) → parse_raw auth via (absolute host path) ≡ ok (parsed host path)
  unfolding parse_raw get_scheme_from after_scheme before to_lower has_prefix
  parse_raw-absolute via =
      rw (before-Avoids b'?' (authority_path host path) rest-Avoids_query) (rooted-absolute via)

  -- An absolute URL with a plain host and a path with nothing to decode is read as these.
  pub parse_request_uri-absolute :
      parse_request_uri auth (absolute host path) ≡ ok (parsed host path)
  unfolding parse_request_uri str_eq
  parse_request_uri-absolute = parse_raw-absolute true

module _ (auth : Str → Option Str) (host path : Str) (plain_host : All IsHostByte host)
    (plain_path : All IsPlainByte path) (known : auth host ≡ some host) where
  path-IsPathByte : All IsPathByte path
  path-IsPathByte = All-weaken IsPlainByte IsPathByte path (λ c h. h.0) plain_path

  rest-Avoids_fragment : Avoids b'#' (host ++ b'/' ∷ path)
  rest-Avoids_fragment =
      All-append (λ c. c ≢ b'#') host (b'/' ∷ path)
        (All-weaken IsHostByte (λ c. c ≢ b'#') host (λ c h. h.2) plain_host)
        (omega arith, All-weaken IsPlainByte (λ c. c ≢ b'#') path (λ c h. h.1) plain_path)

  absolute-Avoids : Avoids b'#' (absolute host path)
  absolute-Avoids =
      All-append (λ c. c ≢ b'#') (bytes "https://") (authority_path host path)
        (
          omega arith,
          (
            omega arith,
            (
              omega arith,
              (omega arith, (omega arith, (omega arith, (omega arith, (omega arith, tt))))),
            ),
          ),
        )
        rest-Avoids_fragment

  -- An absolute URL with a plain host and a plain path is read as these.
  pub parse_url-absolute : parse_url auth (absolute host path) ≡ ok (parsed host path)
  unfolding parse_url str_eq unescape
  parse_url-absolute =
      rw
        (
          before-Avoids b'#' (absolute host path) absolute-Avoids,
          from_first-Avoids b'#' (absolute host path) absolute-Avoids,
          parse_raw-absolute auth host path plain_host path-IsPathByte known false,
        )
        refl
