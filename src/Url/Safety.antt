-- ===== src/Url/Safety.antt =====
-- Parsing a URL returns a value or an error on every text.
use terraform_provider_azure.Base.{
  ℕ, Bool, true, ◌&&◌, Option, inl, inr, [], ◌∷◌, ◌++◌, arith, ◌==◌, Str, drop, Bool-cases, Outcome,
  panic, ◌≢◌, Safe-of-ne, Safe-ne-panic, Safe, Safe->>=,
}
use terraform_provider_azure.Text.{to_lower}
use terraform_provider_azure.Url.{
  UrlError, get_scheme_from, before, from_first, unescape, push, rootless, rooted, after_scheme,
  parse_raw, parse_request_uri, is_hex,
}

get_scheme_from-ne-panic : (raw seen s : Str) → get_scheme_from raw seen s ≢ panic
unfolding get_scheme_from
get_scheme_from-ne-panic raw seen [] = λ e. cc
get_scheme_from-ne-panic raw seen (c ∷ s) =
    ground (arith, get_scheme_from-ne-panic raw (seen ++ c ∷ []) s)

push-ne-panic : (c : ℕ) (m : Outcome UrlError Str) → m ≢ panic → push c m ≢ panic
push-ne-panic c m h = ground arith

unescape-ne-panic : (s : Str) → unescape s ≢ panic
unfolding unescape
unescape-ne-panic [] = λ e. cc
unescape-ne-panic (c ∷ []) = ground arith
unescape-ne-panic (c ∷ a ∷ []) = ground (arith, unescape-ne-panic (a ∷ []))
unescape-ne-panic (c ∷ a ∷ b ∷ s) = elim (Bool-cases (c == b'%')) [
  | inl escape ↦ rw escape (elim (Bool-cases (is_hex a && is_hex b)) [
    | inl hex ↦ rw hex (push-ne-panic _ _ (unescape-ne-panic s))
    | inr bad ↦ rw bad (λ e. cc)
  ])
  | inr plain ↦ rw plain (push-ne-panic c _ (unescape-ne-panic (a ∷ b ∷ s)))
]

rootless-ne-panic : (v : Bool) (s : Str) → rootless v s ≢ panic
unfolding rootless
rootless-ne-panic v s = ground (arith, unescape-ne-panic s)

module _ (auth : Str → Option Str) where
  rooted-ne-panic : (v : Bool) (scheme rest : Str) → rooted auth v scheme rest ≢ panic
  unfolding rooted
  rooted-ne-panic v scheme rest =
      ground (arith, unescape-ne-panic rest, unescape-ne-panic (from_first b'/' (drop 2 rest)))

  after_scheme-ne-panic : (v : Bool) (p : Str × Str) → after_scheme auth v p ≢ panic
  unfolding after_scheme
  after_scheme-ne-panic v p = ground (
    arith,
    rooted-ne-panic v (to_lower p.0) (before b'?' p.1),
    rootless-ne-panic v (before b'?' p.1),
  )

  parse_raw-ne-panic : (v : Bool) (raw : Str) → parse_raw auth v raw ≢ panic
  unfolding parse_raw
  parse_raw-ne-panic v raw = Safe-ne-panic _ (
      Safe->>= _ (after_scheme auth v) (Safe-of-ne _ (get_scheme_from-ne-panic raw [] raw))
        λ p e. Safe-of-ne _ (after_scheme-ne-panic v p))

  pub parse_request_uri-Safe : (raw : Str) → Safe (parse_request_uri auth raw)
  unfolding parse_request_uri
  parse_request_uri-Safe raw = Safe-of-ne _ (ground (arith, parse_raw-ne-panic true raw))
