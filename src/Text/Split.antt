-- ===== src/Text/Split.antt =====
-- `strings.Split` by a one-byte separator, and its inverse on texts without the separator.
use terraform_provider_azure.Base.{
  ℕ, ◌≡◌, refl, ◌≢◌, List, [], ◌∷◌, ◌++◌, arith, ◌==◌, if◌then◌else◌, Str, All, ap, ◌∙◌,
}

unfoldable pub push_head : ℕ → List Str → List Str
push_head c [] = (c ∷ []) ∷ []
push_head c (w ∷ ws) = (c ∷ w) ∷ ws

-- `strings.Split(s, sep)`
unfoldable pub split : ℕ → Str → List Str
unfolding push_head
split sep [] = [] ∷ []
split sep (c ∷ s) = let rest = split sep s in if c == sep then [] ∷ rest else push_head c rest

-- The segments, each behind a separator.
unfoldable pub joined : ℕ → List Str → Str
joined sep [] = []
joined sep (w ∷ ws) = sep ∷ (w ++ joined sep ws)

abbrev pub Avoids : ℕ → Str → Type 0
Avoids c = All (λ x. x ≢ c)

pub split-append :
    (sep : ℕ) (w rest : Str) → Avoids sep w → split sep (w ++ sep ∷ rest) ≡ w ∷ split sep rest
unfolding split
split-append sep [] rest h = ground arith
split-append sep (c ∷ w) rest (ne, h) = ground (arith, split-append sep w rest h)

split-Avoids : (sep : ℕ) (w : Str) → Avoids sep w → split sep (w ++ []) ≡ w ∷ []
unfolding split
split-Avoids sep [] h = refl
split-Avoids sep (c ∷ w) (ne, h) = ground (arith, split-Avoids sep w h)

pub split-joined :
    (sep : ℕ) (w : Str) (ws : List Str)
    → Avoids sep w
    → All (Avoids sep) ws
    → split sep (w ++ joined sep ws) ≡ w ∷ ws
unfolding joined
split-joined sep w [] h hs = split-Avoids sep w h
split-joined sep w (v ∷ ws) h (k, hs) =
    split-append sep w (v ++ joined sep ws) h ∙ ap (λ r. w ∷ r) (split-joined sep v ws k hs)
