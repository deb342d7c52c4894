-- ===== src/LoadBalancer/Import.antt =====
-- The import of a resource inside a load balancer, which cuts the load balancer's ID out of the resource's:
-- `loadBalancerSubResourceStateImporter` of azurerm/loadbalancer.go.
use terraform_provider_azure.Base.{
  ℕ, ◌≡◌, refl, Bool, true, false, Option, none, some, [], ◌∷◌, ◌++◌, arith, ◌==◌, if◌then◌else◌,
  Str, bytes, str_eq, lookup, get_or_empty, Outcome, ok, wrap, ◌>>=◌, fail_if, ◌>>◌, ap, ◌∙◌, sym,
  append_assoc, append-nil,
}
use terraform_provider_azure.Text.{strip_prefix?, trim_suffix, trim_suffix_snoc}
use terraform_provider_azure.ResourceId.{ResourceId, parse_azure_resource_id}

-- The regular expression `.+\/loadBalancers\/.+?\/`, where `.` is any byte but the end of a line. First, the
-- text up to a slash.
unfoldable up_to_slash : Str → Option Str
up_to_slash [] = none
up_to_slash (c ∷ s) =
    let rest = up_to_slash s in
    if c == b'/'
    then some (c ∷ [])
    else if c == 10
    then none
    else elim rest [ none ↦ none | some m ↦ some (c ∷ m) ]

-- `.+?\/`, the shortest one.
unfoldable lazy : Str → Option Str
unfolding up_to_slash
lazy [] = none
lazy (c ∷ s) =
    if c == 10 then none else elim (up_to_slash s) [ none ↦ none | some m ↦ some (c ∷ m) ]

abbrev marker : Str
marker = bytes "/loadBalancers/"

-- `\/loadBalancers\/.+?\/`
unfoldable from_marker : Str → Option Str
unfolding lazy
from_marker t = elim (strip_prefix? marker t) [
  | none ↦ none
  | some rest ↦ elim (lazy rest) [ none ↦ none | some m ↦ some (marker ++ m) ]
]

-- `.*` before it, the longest one.
unfoldable greedy : Str → Option Str
unfolding from_marker
greedy [] = none
greedy (c ∷ s) =
    let rest = greedy s in
    elim (if c == 10 then none else rest) [ none ↦ from_marker (c ∷ s) | some m ↦ some (c ∷ m) ]

unfoldable match_at : Str → Option Str
unfolding greedy
match_at [] = none
match_at (c ∷ s) = if c == 10 then none else elim (greedy s) [ none ↦ none | some m ↦ some (c ∷ m) ]

-- `r.FindString(s)`: the match that starts first, or an empty text.
unfoldable find_string : Str → Str
unfolding match_at
find_string [] = []
find_string (c ∷ s) =
    let rest = find_string s in elim (match_at (c ∷ s)) [ none ↦ rest | some m ↦ m ]

pub data ImportError : Type 0 where
  bad_id : ImportError
  no_load_balancer : ImportError

module _ (parse_authority : Str → Option Str) where
  -- `loadBalancerSubResourceStateImporter`: the `loadbalancer_id` that it sets.
  unfoldable pub import_load_balancer_id : Str → Outcome ImportError Str
  unfolding find_string
  import_load_balancer_id own = do
    let id = trim_suffix (find_string own) (bytes "/")
    parsed ← wrap (λ x. bad_id) (parse_azure_resource_id parse_authority id)
    fail_if (str_eq (get_or_empty (lookup (bytes "loadBalancers") parsed.path)) []) no_load_balancer
    ok id

-- A text without slashes and ends of lines.
unfoldable pub is_word : Str → Bool
is_word [] = true
is_word (c ∷ s) =
    let rest = is_word s in if c == b'/' then false else if c == 10 then false else rest

unfoldable pub is_line : Str → Bool
is_line [] = true
is_line (c ∷ s) = let rest = is_line s in if c == 10 then false else rest

greedy-line : (p t u : Str) → is_line p ≡ true → greedy t ≡ some u → greedy (p ++ t) ≡ some (p ++ u)
unfolding greedy is_line
greedy-line [] t u h e = e
greedy-line (c ∷ p) t u h e = ground (arith, greedy-line p t u)

-- A word that is not the marker's.
strip_prefix-word :
    (m w t : Str)
    → is_word m ≡ true
    → is_word w ≡ true
    → strip_prefix? (m ++ b'/' ∷ []) (w ++ b'/' ∷ t) ≡ (if str_eq m w then some t else none)
unfolding strip_prefix? is_word str_eq
strip_prefix-word [] [] t h h' = ground arith
strip_prefix-word [] (d ∷ w) t h h' = ground arith
strip_prefix-word (c ∷ m) [] t h h' = ground arith
strip_prefix-word (c ∷ m) (d ∷ w) t h h' = ground (arith, strip_prefix-word m w t)

strip_prefix-last : (m w : Str) → is_word w ≡ true → strip_prefix? (m ++ b'/' ∷ []) w ≡ none
unfolding strip_prefix? is_word
strip_prefix-last [] [] h = ground arith
strip_prefix-last [] (d ∷ w) h = ground arith
strip_prefix-last (c ∷ m) [] h = ground arith
strip_prefix-last (c ∷ m) (d ∷ w) h = ground (arith, strip_prefix-last m w)

greedy-word : (w t : Str) → is_word w ≡ true → greedy t ≡ none → greedy (w ++ t) ≡ none
unfolding greedy is_word from_marker strip_prefix?
greedy-word [] t h e = e
greedy-word (c ∷ w) t h e = ground (arith, greedy-word w t)

lazy-word : (w t : Str) → is_word w ≡ true → up_to_slash (w ++ b'/' ∷ t) ≡ some (w ++ b'/' ∷ [])
unfolding up_to_slash is_word
lazy-word [] t h = refl
lazy-word (c ∷ w) t h = ground (arith, lazy-word w t)

abbrev balancers : Str
balancers = bytes "loadBalancers"

greedy-slash :
    (w t : Str)
    → is_word w ≡ true
    → str_eq balancers w ≡ false
    → greedy (b'/' ∷ t) ≡ none
    → greedy (b'/' ∷ (w ++ b'/' ∷ t)) ≡ none
unfolding greedy from_marker strip_prefix? is_word
greedy-slash w t h other e =
    ground (arith, greedy-word w (b'/' ∷ t) h e, strip_prefix-word balancers w t refl h)

greedy-last : (w : Str) → is_word w ≡ true → greedy (b'/' ∷ w) ≡ none
unfolding greedy from_marker strip_prefix?
greedy-last w h = ground (
  arith,
  ap greedy (sym (append-nil w)) ∙ greedy-word w [] h refl,
  strip_prefix-last balancers w h,
)

from_marker-name :
    (d : ℕ) (w t : Str)
    → is_word (d ∷ w) ≡ true
    → from_marker (marker ++ ((d ∷ w) ++ b'/' ∷ t)) ≡ some (marker ++ ((d ∷ w) ++ b'/' ∷ []))
unfolding from_marker strip_prefix? lazy is_word
from_marker-name d w t h = ground (arith, lazy-word w t)

greedy-marker :
    (t u : Str)
    → greedy (b'/' ∷ t) ≡ none
    → from_marker (marker ++ t) ≡ some u
    → greedy (marker ++ t) ≡ some u
unfolding greedy is_word
greedy-marker t u e e' = ground (arith, greedy-word balancers (b'/' ∷ t) refl e)

module _ (c d : ℕ) (p w kind child : Str) (line : is_line (c ∷ p) ≡ true)
    (name : is_word (d ∷ w) ≡ true) (other_name : str_eq balancers (d ∷ w) ≡ false)
    (kind_word : is_word kind ≡ true) (other_kind : str_eq balancers kind ≡ false)
    (child_word : is_word child ≡ true) where
  abbrev pub balancer_id : Str
  balancer_id = (c ∷ p) ++ (marker ++ (d ∷ w))

  find_string-balancer :
      find_string ((c ∷ p) ++ (marker ++ ((d ∷ w) ++ b'/' ∷ (kind ++ b'/' ∷ child))))
      ≡ (c ∷ p) ++ (marker ++ ((d ∷ w) ++ b'/' ∷ []))
  unfolding find_string match_at is_line
  find_string-balancer =
      let inside =
        greedy-slash (d ∷ w) (kind ++ b'/' ∷ child) name other_name
          (greedy-slash kind child kind_word other_kind (greedy-last child child_word)) in
      let cut = greedy-marker _ _ inside (from_marker-name d w (kind ++ b'/' ∷ child) name) in
      let rest_line : is_line p ≡ true = ground arith in
      let whole =
        greedy-line p (marker ++ ((d ∷ w) ++ b'/' ∷ (kind ++ b'/' ∷ child))) _ rest_line cut in
      ground (arith, whole)

  -- The ID of a resource inside a load balancer, which is the load balancer's with two segments more, is imported
  -- as one of that load balancer, where no segment of the name or behind it is `loadBalancers`, and the load
  -- balancer's ID parses.
  pub import-balancer_id :
      (parse_authority : Str → Option Str) (r : ResourceId)
      → parse_azure_resource_id parse_authority balancer_id ≡ ok r
      → str_eq (get_or_empty (lookup balancers r.path)) [] ≡ false
      → import_load_balancer_id parse_authority (balancer_id ++ b'/' ∷ (kind ++ b'/' ∷ child))
        ≡ ok balancer_id
  unfolding import_load_balancer_id
  import-balancer_id parse_authority r parsed present =
      let tail_ = b'/' ∷ (kind ++ b'/' ∷ child) in
      let same : balancer_id ++ tail_ ≡ (c ∷ p) ++ (marker ++ ((d ∷ w) ++ tail_)) =
        append_assoc (c ∷ p) (marker ++ (d ∷ w)) tail_
        ∙ ap (λ x. (c ∷ p) ++ x) (append_assoc marker (d ∷ w) tail_) in
      let back : (c ∷ p) ++ (marker ++ ((d ∷ w) ++ b'/' ∷ [])) ≡ balancer_id ++ b'/' ∷ [] = sym (
        append_assoc (c ∷ p) (marker ++ (d ∷ w)) (b'/' ∷ [])
        ∙ ap (λ x. (c ∷ p) ++ x) (append_assoc marker (d ∷ w) (b'/' ∷ []))) in
      let cut : trim_suffix (find_string (balancer_id ++ tail_)) (b'/' ∷ []) ≡ balancer_id =
        ap (λ x. trim_suffix (find_string x) (b'/' ∷ [])) same
        ∙ ap (λ x. trim_suffix x (b'/' ∷ [])) (find_string-balancer ∙ back)
        ∙ trim_suffix_snoc balancer_id b'/' in
      ground (arith, cut)
