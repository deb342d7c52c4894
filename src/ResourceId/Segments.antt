-- ===== src/ResourceId/Segments.antt =====
-- The path of an ID behind its outer slashes, and its segments: the first lines of
-- `ParseAzureResourceID` and of `parseKeyVaultChildID` (azurerm/key_vault_child.go).
use terraform_provider_azure.Base.{
  ℕ, ◌≡◌, refl, ◌≢◌, Bool, true, false, List, [], ◌∷◌, ◌++◌, arith, Str, bytes, All, All-append, ap,
  ◌∙◌, sym, append_assoc, append-nil, ◌&&◌, not, all, ◌==◌,
}
use terraform_provider_azure.Text.{
  trim_space, trim_prefix, trim_suffix, split, joined, split-joined, trim_suffix_other, Avoids,
  is_graphic, trim_space-graphic,
}
use terraform_provider_azure.Url.{IsPathByte}

-- `TrimSpace`, then one slash less at each end.
unfoldable pub bare_path : Str → Str
bare_path path = trim_suffix (trim_prefix (trim_space path) (bytes "/")) (bytes "/")

unfoldable pub segments : Str → List Str
segments path = split b'/' path

-- A byte of a segment that a URL leaves alone.
abbrev pub IsPlain : ℕ → Type 0
IsPlain c = (is_graphic c ≡ true) × (c ≢ b'/') × (c ≢ b'%') × (c ≢ b'?')

-- A segment that is written in an ID as it is.
abbrev pub IsSegment : Str → Type 0
IsSegment w = (w ≢ []) × All IsPlain w

abbrev is_plain : ℕ → Bool
is_plain c = is_graphic c && not (c == b'/') && not (c == b'%') && not (c == b'?')

unfoldable pub is_segment : Str → Bool
is_segment [] = false
is_segment (c ∷ s) = all is_plain (c ∷ s)

all-IsPlain_sound : (s : Str) → all is_plain s ≡ true → All IsPlain s
all-IsPlain_sound [] h = tt
all-IsPlain_sound (c ∷ s) h = ground (arith, all-IsPlain_sound s)

-- A literal segment is checked by evaluation.
pub is_segment_sound : (s : Str) → is_segment s ≡ true → IsSegment s
unfolding is_segment
is_segment_sound [] h = cc
is_segment_sound (c ∷ s) h = ((λ e. cc e), all-IsPlain_sound (c ∷ s) h)

-- A text, as its start and its last byte, which is plain.
abbrev Ends : Str → Type 0
Ends s = (t : Str) × (d : ℕ) × (s ≡ t ++ d ∷ []) × IsPlain d

Ends-plain : (c : ℕ) (s : Str) → All IsPlain (c ∷ s) → Ends (c ∷ s)
Ends-plain c [] h = ([], c, refl, h.0)
Ends-plain c (b ∷ s) h = let (t, d, e, p) = Ends-plain b s h.1 in (c ∷ t, d, ap (λ r. c ∷ r) e, p)

Ends-segment : (w : Str) → IsSegment w → Ends w
Ends-segment [] h = absurd (h.0 refl)
Ends-segment (c ∷ s) h = Ends-plain c s h.1

Ends-joined :
    (w : Str) (ws : List Str) → IsSegment w → All IsSegment ws → Ends (w ++ joined b'/' ws)
unfolding joined
Ends-joined w [] h hs = let (t, d, e, p) = Ends-segment w h in (t, d, append-nil w ∙ e, p)
Ends-joined w (v ∷ ws) h (k, hs) =
    let (t, d, e, p) = Ends-joined v ws k hs in
    (w ++ b'/' ∷ t, d, ap (λ r. w ++ b'/' ∷ r) e ∙ sym (append_assoc w (b'/' ∷ t) (d ∷ [])), p)

Avoids-slash : (w : Str) → All IsPlain w → Avoids b'/' w
Avoids-slash [] h = tt
Avoids-slash (c ∷ w) h = (h.0.1, Avoids-slash w h.1)

All-Avoids : (ws : List Str) → All IsSegment ws → All (Avoids b'/') ws
All-Avoids [] h = tt
All-Avoids (w ∷ ws) h = (Avoids-slash w h.0.1, All-Avoids ws h.1)

IsPathByte-plain : (w : Str) → All IsPlain w → All IsPathByte w
IsPathByte-plain [] h = tt
IsPathByte-plain (c ∷ w) h = ((h.0.2, h.0.3), IsPathByte-plain w h.1)

-- A URL has nothing to decode in joined segments.
pub joined-IsPathByte : (ws : List Str) → All IsSegment ws → All IsPathByte (joined b'/' ws)
unfolding joined
joined-IsPathByte [] h = tt
joined-IsPathByte (w ∷ ws) h = (
  (omega arith, omega arith),
  All-append IsPathByte w (joined b'/' ws) (IsPathByte-plain w h.0.1) (joined-IsPathByte ws h.1),
)

bare_path-joined :
    (w : Str) (ws : List Str)
    → IsSegment w
    → All IsSegment ws
    → bare_path (joined b'/' (w ∷ ws)) ≡ w ++ joined b'/' ws
unfolding bare_path joined trim_prefix
bare_path-joined w ws h hs =
    let (t, d, e, plain) = Ends-joined w ws h hs in
    ap (λ r. trim_suffix (trim_prefix r (bytes "/")) (bytes "/"))
      (trim_space-graphic b'/' d (w ++ joined b'/' ws) (b'/' ∷ t) refl plain.0
        (ap (λ r. b'/' ∷ r) e))
    ∙ ap (λ r. trim_suffix r (bytes "/")) e
    ∙ trim_suffix_other t b'/' d plain.1
    ∙ sym e

-- The segments of a path are read back.
pub segments-joined :
    (w : Str) (ws : List Str)
    → IsSegment w
    → All IsSegment ws
    → segments (bare_path (joined b'/' (w ∷ ws))) ≡ w ∷ ws
unfolding segments
segments-joined w ws h hs =
    ap (split b'/') (bare_path-joined w ws h hs)
    ∙ split-joined b'/' w ws (Avoids-slash w h.1) (All-Avoids ws hs)
