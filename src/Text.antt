-- ===== src/Text.antt =====
-- What the provider uses of Go's `strings` package, over byte strings.
mod Split
unfoldable pub use Split.*
use terraform_provider_azure.Base.{
  ℕ, zero, suc, ◌≤◌, ◌<◌, ◌≡◌, refl, Bool, true, false, Option, none, some, List, [], ◌∷◌, ◌++◌,
  ◌&&◌, ◌||◌, arith, ==_iff, ◌==◌, if◌then◌else◌, Str, length, leb, append_assoc, append-nil, sym,
  map, not, all, ap, ◌≢◌, ◌∙◌, ◌+◌,
}
use mathlib.Core.Path.{◌≡⟨◌⟩◌, ◌∎}
use mathlib.Core.List.{reverse, reverse-append, reverse-cons, reverse-reverse}

-- The part of `s` behind the prefix `p`, if `s` starts with `p`.
unfoldable pub strip_prefix? : Str → Str → Option Str
strip_prefix? [] s = some s
strip_prefix? (x ∷ p) [] = none
strip_prefix? (x ∷ p) (y ∷ s) = if x == y then strip_prefix? p s else none

-- `strings.HasPrefix(s, p)`
unfoldable pub has_prefix : Str → Str → Bool
unfolding strip_prefix?
has_prefix s p = elim (strip_prefix? p s) [ none ↦ false | some _ ↦ true ]

-- `strings.TrimPrefix(s, p)`
unfoldable pub trim_prefix : Str → Str → Str
unfolding strip_prefix?
trim_prefix s p = elim (strip_prefix? p s) [ none ↦ s | some rest ↦ rest ]

-- `strings.HasSuffix(s, p)`
unfoldable pub has_suffix : Str → Str → Bool
unfolding has_prefix
has_suffix s p = has_prefix (reverse s) (reverse p)

-- `strings.TrimSuffix(s, p)`
unfoldable pub trim_suffix : Str → Str → Str
unfolding trim_prefix
trim_suffix s p = reverse (trim_prefix (reverse s) (reverse p))

-- The UTF-8 forms of the code points for which `unicode.IsSpace` holds.
abbrev spaces : List Str
spaces =
    (9 ∷ [])
    ∷ (10 ∷ [])
    ∷ (11 ∷ [])
    ∷ (12 ∷ [])
    ∷ (13 ∷ [])
    ∷ (32 ∷ [])
    ∷ (0xC2 ∷ 0x85 ∷ [])
    ∷ (0xC2 ∷ 0xA0 ∷ [])
    ∷ (0xE1 ∷ 0x9A ∷ 0x80 ∷ [])
    ∷ (0xE2 ∷ 0x80 ∷ 0x80 ∷ [])
    ∷ (0xE2 ∷ 0x80 ∷ 0x81 ∷ [])
    ∷ (0xE2 ∷ 0x80 ∷ 0x82 ∷ [])
    ∷ (0xE2 ∷ 0x80 ∷ 0x83 ∷ [])
    ∷ (0xE2 ∷ 0x80 ∷ 0x84 ∷ [])
    ∷ (0xE2 ∷ 0x80 ∷ 0x85 ∷ [])
    ∷ (0xE2 ∷ 0x80 ∷ 0x86 ∷ [])
    ∷ (0xE2 ∷ 0x80 ∷ 0x87 ∷ [])
    ∷ (0xE2 ∷ 0x80 ∷ 0x88 ∷ [])
    ∷ (0xE2 ∷ 0x80 ∷ 0x89 ∷ [])
    ∷ (0xE2 ∷ 0x80 ∷ 0x8A ∷ [])
    ∷ (0xE2 ∷ 0x80 ∷ 0xA8 ∷ [])
    ∷ (0xE2 ∷ 0x80 ∷ 0xA9 ∷ [])
    ∷ (0xE2 ∷ 0x80 ∷ 0xAF ∷ [])
    ∷ (0xE2 ∷ 0x81 ∷ 0x9F ∷ [])
    ∷ (0xE3 ∷ 0x80 ∷ 0x80 ∷ [])
    ∷ []

unfoldable pub strip_any? : List Str → Str → Option Str
unfolding strip_prefix?
strip_any? [] s = none
strip_any? (p ∷ ps) s = elim (strip_prefix? p s) [ none ↦ strip_any? ps s | some rest ↦ some rest ]

-- Each round takes at least one byte, so the length of the text is enough fuel.
trim_start_from : ℕ → List Str → Str → Str
trim_start_from zero ps s = s
trim_start_from (suc n) ps s = elim (strip_any? ps s) [
  | none ↦ s
  | some rest ↦ trim_start_from n ps rest
]

unfoldable pub trim_start : List Str → Str → Str
unfolding trim_start_from strip_any?
trim_start ps s = trim_start_from (length s) ps s

-- `strings.TrimSpace(s)`
unfoldable pub trim_space : Str → Str
unfolding trim_start
trim_space s = reverse (trim_start (map reverse spaces) (reverse (trim_start spaces s)))

-- A byte of printable ASCII that is not the space: 33 to 126.
abbrev pub is_graphic : ℕ → Bool
is_graphic c = leb 33 c && leb c 126

-- No encoding of a space starts, or ends, with a graphic byte.
starts_apart : Str → Bool
starts_apart [] = false
starts_apart (x ∷ p) = not (is_graphic x)

strip_any?-graphic :
    (ps : List Str) (c : ℕ) (s : Str)
    → all starts_apart ps ≡ true
    → is_graphic c ≡ true
    → strip_any? ps (c ∷ s) ≡ none
unfolding strip_any? starts_apart
strip_any?-graphic [] c s hs h = refl
strip_any?-graphic ([] ∷ ps) c s hs h = cc
strip_any?-graphic ((x ∷ p) ∷ ps) c s hs h = ground (arith, strip_any?-graphic ps c s)

trim_start-of_none : (ps : List Str) (s : Str) → strip_any? ps s ≡ none → trim_start ps s ≡ s
unfolding trim_start
trim_start-of_none ps [] h = refl
trim_start-of_none ps (c ∷ s) h = ground arith

spaces_apart : (all starts_apart spaces ≡ true) × (all starts_apart (map reverse spaces) ≡ true)
unfolding starts_apart
spaces_apart = (refl, refl)

trim_start-graphic : (c : ℕ) (s : Str) → is_graphic c ≡ true → trim_start spaces (c ∷ s) ≡ c ∷ s
trim_start-graphic c s h =
    trim_start-of_none spaces (c ∷ s) (strip_any?-graphic spaces c s spaces_apart.0 h)

reverse-snoc : (t : Str) (d : ℕ) → reverse (d ∷ reverse t) ≡ t ++ d ∷ []
reverse-snoc t d = reverse-cons d (reverse t) ∙ ap (λ r. r ++ d ∷ []) (reverse-reverse t)

trim_end-graphic :
    (t : Str) (d : ℕ)
    → is_graphic d ≡ true
    → reverse (trim_start (map reverse spaces) (reverse (t ++ d ∷ []))) ≡ t ++ d ∷ []
trim_end-graphic t d h =
    reverse (trim_start ends (reverse (t ++ d ∷ [])))
    ≡⟨ ap (λ r. reverse (trim_start ends r)) (reverse-append t (d ∷ [])) ⟩
      reverse (trim_start ends (d ∷ reverse t))
    ≡⟨ ap reverse (
        trim_start-of_none ends (d ∷ reverse t)
          (strip_any?-graphic ends d (reverse t) spaces_apart.1 h)) ⟩
      reverse (d ∷ reverse t)
    ≡⟨ reverse-snoc t d ⟩ t ++ d ∷ [] ∎
  where
    ends : List Str
    ends = map reverse spaces

-- A text that starts and ends with graphic bytes is not changed by trimming.
pub trim_space-graphic :
    (c d : ℕ) (s t : Str)
    → is_graphic c ≡ true
    → is_graphic d ≡ true
    → c ∷ s ≡ t ++ d ∷ []
    → trim_space (c ∷ s) ≡ c ∷ s
unfolding trim_space
trim_space-graphic c d s t hc hd e =
    ap (λ r. reverse (trim_start (map reverse spaces) (reverse r))) (trim_start-graphic c s hc ∙ e)
    ∙ trim_end-graphic t d hd
    ∙ sym e

trim_prefix_other : (c d : ℕ) (s : Str) → d ≢ c → trim_prefix (d ∷ s) (c ∷ []) ≡ d ∷ s
unfolding trim_prefix
trim_prefix_other c d s h = ground arith

-- A last byte that is not the suffix stays.
pub trim_suffix_other :
    (t : Str) (c d : ℕ) → d ≢ c → trim_suffix (t ++ d ∷ []) (c ∷ []) ≡ t ++ d ∷ []
unfolding trim_suffix
trim_suffix_other t c d h =
    ap (λ r. reverse (trim_prefix r (c ∷ []))) (reverse-append t (d ∷ []))
    ∙ ap reverse (trim_prefix_other c d (reverse t) h)
    ∙ reverse-snoc t d

trim_prefix_head : (c : ℕ) (t : Str) → trim_prefix (c ∷ t) (c ∷ []) ≡ t
unfolding trim_prefix strip_prefix?
trim_prefix_head c t = ground arith

pub trim_suffix_snoc : (t : Str) (c : ℕ) → trim_suffix (t ++ c ∷ []) (c ∷ []) ≡ t
unfolding trim_suffix
trim_suffix_snoc t c =
    ap (λ r. reverse (trim_prefix r (c ∷ []))) (reverse-append t (c ∷ []))
    ∙ ap reverse (trim_prefix_head c (reverse t))
    ∙ reverse-reverse t

-- `strings.ToLower` on ASCII bytes; other bytes stay.
unfoldable pub lower_byte : ℕ → ℕ
lower_byte c = if leb b'A' c && leb c b'Z' then c + 32 else c

unfoldable pub to_lower : Str → Str
unfolding lower_byte
to_lower = map lower_byte
