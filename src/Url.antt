-- ===== src/Url.antt =====
-- What the provider uses of Go's `net/url`: `ParseRequestURI` and `Parse`, with their scheme, host
-- and decoded path. The parsing of the authority (`user@host:port`) is a parameter of `parse`.
pub mod Safety
pub mod Absolute
use terraform_provider_azure.Base.{
  ℕ, ◌+◌, ◌-◌, ◌*◌, ◌≡◌, refl, ◌≢◌, Bool, true, false, ◌&&◌, ◌||◌, Option, none, some, [], ◌∷◌,
  ◌++◌, arith, ◌==◌, leb, if◌then◌else◌, Str, bytes, All, Outcome, ok, err, panic, ◌>>=◌, not, drop,
  str_eq,
}
use terraform_provider_azure.Text.{has_prefix, to_lower}

pub record Url : Type 0 where
  pub scheme : Str
  pub host : Str
  pub path : Str

pub data UrlError : Type 0 where
  empty_url missing_scheme invalid_uri colon_in_segment bad_escape bad_authority : UrlError

abbrev is_letter : ℕ → Bool
is_letter c = leb b'a' c && leb c b'z' || leb b'A' c && leb c b'Z'

abbrev is_digit : ℕ → Bool
is_digit c = leb b'0' c && leb c b'9'

abbrev is_nil : Str → Bool
is_nil [] = true
is_nil (c ∷ s) = false

-- `getscheme`: the scheme and what follows its colon; with no scheme, the whole text.
get_scheme_from : Str → Str → Str → Outcome UrlError (Str × Str)
get_scheme_from raw seen [] = ok ([], raw)
get_scheme_from raw seen (c ∷ s) =
    let more = get_scheme_from raw (seen ++ c ∷ []) s in
    if is_letter c
    then more
    else if is_digit c || c == b'+' || c == b'-' || c == b'.'
    then if is_nil seen then ok ([], raw) else more
    else if c == b':'
    then if is_nil seen then err missing_scheme else ok (seen, s)
    else ok ([], raw)

-- What stands before the first `sep`.
unfoldable pub before : ℕ → Str → Str
before sep [] = []
before sep (c ∷ s) = if c == sep then [] else c ∷ before sep s

-- What stands from the first `sep` on.
unfoldable pub from_first : ℕ → Str → Str
from_first sep [] = []
from_first sep (c ∷ s) = if c == sep then c ∷ s else from_first sep s

contains : ℕ → Str → Bool
contains x [] = false
contains x (c ∷ s) = c == x || contains x s

abbrev is_hex : ℕ → Bool
is_hex c = is_digit c || leb b'a' c && leb c b'f' || leb b'A' c && leb c b'F'

abbrev hex_value : ℕ → ℕ
hex_value c = if leb c b'9' then c - 48 else if leb c b'F' then c - 55 else c - 87

abbrev push : ℕ → Outcome UrlError Str → Outcome UrlError Str
push c (ok s) = ok (c ∷ s)
push c (err e) = err e
push c panic = panic

-- `unescape(s, encodePath)`: `%` and two hexadecimal digits are one byte.
unfoldable pub unescape : Str → Outcome UrlError Str
unescape [] = ok []
unescape (c ∷ []) = if c == b'%' then err bad_escape else ok (c ∷ [])
unescape (c ∷ a ∷ []) =
    let next = unescape (a ∷ []) in if c == b'%' then err bad_escape else push c next
unescape (c ∷ a ∷ b ∷ s) =
    let skip = unescape s in
    let next = unescape (a ∷ b ∷ s) in
    if c == b'%'
    then if is_hex a && is_hex b then push (16 * hex_value a + hex_value b) skip else err bad_escape
    else push c next

-- The errors of a rest with no scheme that does not start with a slash.
rootless : Bool → Str → Outcome UrlError Url
rootless via_request rest =
    if via_request
    then err invalid_uri
    else if contains b':' (before b'/' rest)
    then err colon_in_segment
    else do p ← unescape rest; ok (record { scheme = []; host = []; path = p })

-- Whether the text behind the scheme starts with an authority.
has_authority : Bool → Str → Str → Bool
has_authority via_request scheme rest =
    (not (is_nil scheme) || not via_request && not (has_prefix rest (bytes "///")))
    && has_prefix rest (bytes "//")

module _ (parse_authority : Str → Option Str) where
  -- A rest that starts with a slash: an authority, if there is one, then the path.
  rooted : Bool → Str → Str → Outcome UrlError Url
  rooted via_request scheme rest =
      if has_authority via_request scheme rest
      then elim (parse_authority (before b'/' (drop 2 rest))) [
        | none ↦ err bad_authority
        | some h ↦ do
          p ← unescape (from_first b'/' (drop 2 rest))
          ok (record { scheme = scheme; host = h; path = p })
      ]
      else do p ← unescape rest; ok (record { scheme = scheme; host = []; path = p })

  -- What follows the scheme. With a scheme, a rest with no slash in front is opaque.
  after_scheme : Bool → Str × Str → Outcome UrlError Url
  after_scheme via_request (name, tail) =
      let scheme = to_lower name in
      let rest = before b'?' tail in
      if has_prefix rest (bytes "/")
      then rooted via_request scheme rest
      else if is_nil scheme
      then rootless via_request rest
      else ok (record { scheme = scheme; host = []; path = [] })

  -- `parse(rawurl, viaRequest)`
  parse_raw : Bool → Str → Outcome UrlError Url
  unfolding after_scheme
  parse_raw via_request raw = get_scheme_from raw [] raw >>= after_scheme via_request

  -- `url.ParseRequestURI`
  unfoldable pub parse_request_uri : Str → Outcome UrlError Url
  unfolding parse_raw get_scheme_from rooted rootless has_authority contains
  parse_request_uri raw =
      if is_nil raw
      then err empty_url
      else if str_eq raw (bytes "*")
      then ok (record { scheme = []; host = []; path = raw })
      else parse_raw true raw

  -- `url.Parse`: the fragment is cut off first, and must decode.
  unfoldable pub parse_url : Str → Outcome UrlError Url
  unfolding parse_raw get_scheme_from rooted rootless has_authority contains
  parse_url raw = do
    let main = before b'#' raw
    u ←
        if str_eq main (bytes "*")
        then ok (record { scheme = []; host = []; path = main })
        else parse_raw false main
    fragment ← unescape (drop 1 (from_first b'#' raw))
    ok u

abbrev pub IsPathByte : ℕ → Type 0
IsPathByte c = (c ≢ b'%') × (c ≢ b'?')

unescape-plain : (s : Str) → All IsPathByte s → unescape s ≡ ok s
unfolding unescape
unescape-plain [] h = refl
unescape-plain (c ∷ []) h = ground arith
unescape-plain (c ∷ a ∷ []) h = ground (arith, unescape-plain (a ∷ []))
unescape-plain (c ∷ a ∷ b ∷ s) h = ground (arith, unescape-plain (a ∷ b ∷ s) h.1)

before-plain : (s : Str) → All IsPathByte s → before b'?' s ≡ s
unfolding before
before-plain [] h = refl
before-plain (c ∷ s) h = ground (arith, before-plain s h.1)

-- A text that starts with a slash and has nothing to decode is its own path.
pub parse_request_uri-plain :
    (parse_authority : Str → Option Str) (s : Str)
    → All IsPathByte s
    → parse_request_uri parse_authority (b'/' ∷ s)
      ≡ ok (record { scheme = []; host = []; path = b'/' ∷ s })
unfolding parse_request_uri str_eq has_prefix before to_lower
parse_request_uri-plain auth s h =
    rw (before-plain s h, unescape-plain (b'/' ∷ s) ((omega arith, omega arith), h))
