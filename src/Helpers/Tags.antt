-- ===== src/Helpers/Tags.antt =====
-- Tags: azurerm/tags.go. A map is an association list; the formatting of an `int` is a parameter.
use terraform_provider_azure.Base.{
  ◌≤◌, ◌≡◌, refl, ◌↔◌, ◌⊎◌, inl, inr, Bool, true, false, ◌&&◌, not, Option, none, some, List, [],
  ◌∷◌, ◌++◌, arith, ltb, if◌then◌else◌, Bool-cases, Str, str_eq, str_eq_iff, Dict, lookup, length,
  All, ap, map, Outcome, ok, deref, ◌>>=◌,
}
use terraform_provider_azure.Text.{to_lower}

-- The dynamic type of a value: a `string`, an `int`, or another one.
pub data TagValue (Int : Type 0) : Type 0 where
  text : Str → TagValue Int
  number : Int → TagValue Int
  other : TagValue Int

pub data TagError : Type 0 where
  too_many : TagError
  long_key : Str → TagError
  bad_type : Str → TagError
  long_value : Str → TagError

-- `filterDict[strings.ToLower(k)]`: a name that is not empty is the key, but for the case.
unfoldable pub is_filtered : List Str → Str → Bool
is_filtered [] k = false
is_filtered (n ∷ ns) k =
    let rest = is_filtered ns k in
    if ltb 0 (length n) && str_eq (to_lower n) (to_lower k) then true else rest

unfoldable pub without_names {ℓ} : {V : Type ℓ} → List Str → Dict V → Dict V
unfolding is_filtered
without_names names [] = []
without_names names ((k, v) ∷ m) =
    let rest = without_names names m in if not (is_filtered names k) then (k, v) ∷ rest else rest

unfoldable pub filter_tags {ℓ} : {V : Type ℓ} → Dict V → List Str → Dict V
unfolding without_names
filter_tags m [] = m
filter_tags m (n ∷ ns) = without_names (n ∷ ns) m

-- `flattenAndSetTags`: the map that it sets; each value is dereferenced.
unfoldable pub flatten_tags : Dict (Option Str) → Outcome TagError (Dict Str)
flatten_tags [] = ok []
flatten_tags ((k, v) ∷ m) = do value ← deref v; rest ← flatten_tags m; ok ((k, value) ∷ rest)

module _ {Int : Type 0} (sprint : Int → Str) where
  unfoldable pub tag_value_to_string : TagValue Int → Option Str
  tag_value_to_string (text s) = some s
  tag_value_to_string (number n) = some (sprint n)
  tag_value_to_string other = none

  -- With an error, the value is the empty text.
  unfoldable pub expand_tags : Dict (TagValue Int) → Dict Str
  unfolding tag_value_to_string
  expand_tags [] = []
  expand_tags ((k, v) ∷ m) =
      (k, elim (tag_value_to_string v) [ none ↦ [] | some s ↦ s ]) ∷ expand_tags m

  -- What a pass of the loop appends.
  unfoldable pub tag_errors : Str → TagValue Int → List TagError
  unfolding tag_value_to_string
  tag_errors k v =
      (if ltb 512 (length k) then long_key k ∷ [] else []) ++ elim (tag_value_to_string v) [
        | none ↦ bad_type k ∷ []
        | some s ↦ if ltb 256 (length s) then long_value k ∷ [] else []
      ]

  unfoldable pub all_tag_errors : Dict (TagValue Int) → List TagError
  unfolding tag_errors
  all_tag_errors [] = []
  all_tag_errors ((k, v) ∷ m) = tag_errors k v ++ all_tag_errors m

  unfoldable pub validate_tags : Dict (TagValue Int) → List TagError
  unfolding all_tag_errors
  validate_tags m = (if ltb 15 (length m) then too_many ∷ [] else []) ++ all_tag_errors m

  -- A tag that is allowed: a text or a number, and neither its key nor its value too long.
  abbrev pub IsTag : Str × TagValue Int → Type 0
  IsTag (k, v) =
      (length k ≤ 512) × ((s : Str) × (tag_value_to_string v ≡ some s) × (length s ≤ 256))

  tag_errors-IsTag : (k : Str) (v : TagValue Int) → (tag_errors k v ≡ []) ↔ IsTag (k, v)
  unfolding tag_errors tag_value_to_string
  tag_errors-IsTag k (text s) = (
    (λ h. (ground arith, (s, refl, ground arith))),
    (λ (a, (t, e, b)). let same : s ≡ t = cc e in ground (arith, ap (λ (q : Str). length q) same)),
  )
  tag_errors-IsTag k (number n) = (
    (λ h. (ground arith, (sprint n, refl, ground arith))),
    (λ (a, (t, e, b)).
        let same : sprint n ≡ t = cc e in ground (arith, ap (λ (q : Str). length q) same)),
  )
  tag_errors-IsTag k other = ((λ h. ground arith), (λ (a, (t, e, b)). cc e))

  append-nil_iff : (xs ys : List TagError) → (xs ++ ys ≡ []) ↔ ((xs ≡ []) × (ys ≡ []))
  append-nil_iff [] ys = ((λ e. (refl, e)), (λ h. h.1))
  append-nil_iff (x ∷ xs) ys = ((λ e. cc), (λ h. cc (h.0)))

  all_tag_errors-IsTag : (m : Dict (TagValue Int)) → (all_tag_errors m ≡ []) ↔ All IsTag m
  unfolding all_tag_errors
  all_tag_errors-IsTag [] = ((λ e. tt), (λ h. refl))
  all_tag_errors-IsTag ((k, v) ∷ m) =
      let split_ = append-nil_iff (tag_errors k v) (all_tag_errors m) in
      let one = tag_errors-IsTag k v in
      let more = all_tag_errors-IsTag m in
      (
        (λ e. (one.0 ((split_.0 e).0), more.0 ((split_.0 e).1))),
        (λ h. split_.1 (one.1 h.0, more.1 h.1)),
      )

  -- The check of the tags finds no error exactly where there are at most 15 tags, each with a text or a
  -- number as its value, of at most 256 bytes when printed, and with a key of at most 512 bytes.
  pub validate_tags_lem :
      (m : Dict (TagValue Int)) → (validate_tags m ≡ []) ↔ ((length m ≤ 15) × All IsTag m)
  unfolding validate_tags
  validate_tags_lem m =
      let split_ =
        append-nil_iff (if ltb 15 (length m) then too_many ∷ [] else []) (all_tag_errors m) in
      let rest = all_tag_errors-IsTag m in
      (
        (λ e. let h = split_.0 e in let few = h.0 in (ground arith, rest.0 h.1)),
        (λ h. let few = h.0 in split_.1 (ground arith, rest.1 h.1)),
      )

-- The key is one of the names, whatever the case; a name that is empty stands for no key.
abbrev pub IsNamed : List Str → Str → Type 0
IsNamed [] k = ⊥
IsNamed (n ∷ ns) k = ((1 ≤ length n) × (to_lower n ≡ to_lower k)) ⊎ IsNamed ns k

is_filtered-IsNamed : (names : List Str) (k : Str) → (is_filtered names k ≡ true) ↔ IsNamed names k
unfolding is_filtered
is_filtered-IsNamed [] k = ((λ e. cc), (λ h. absurd h))
is_filtered-IsNamed (n ∷ ns) k =
    let rest = is_filtered-IsNamed ns k in
    let same = str_eq_iff (to_lower n) (to_lower k) in
    elim (Bool-cases (ltb 0 (length n) && str_eq (to_lower n) (to_lower k))) [
      | inl here ↦ ((λ e. inl (ground arith, ground (arith, same))), (λ h. rw here refl))
      | inr elsewhere ↦ (
        (λ e. inr (rest.0 (ground arith))),
        (λ h. elim h [
          | inl (a, b) ↦ ground (arith, same)
          | inr later ↦ rw elsewhere (rest.1 later)
        ]),
      )
    ]

is_filtered_key :
    (names : List Str) (j k : Str) → str_eq j k ≡ true → is_filtered names j ≡ is_filtered names k
is_filtered_key names j k e = ap (is_filtered names) ((str_eq_iff j k).0 e)

module _ {ℓ} {V : Type ℓ} where
  lookup-without_names :
      (names : List Str) (m : Dict V) (k : Str)
      → lookup k (without_names names m) ≡ (if is_filtered names k then none else lookup k m)
  unfolding without_names lookup
  lookup-without_names names [] k = ground arith
  lookup-without_names names ((j, v) ∷ m) k =
      ground (arith, lookup-without_names names m k, is_filtered_key names j k)

  lookup-filter_tags :
      (m : Dict V) (names : List Str) (k : Str)
      → lookup k (filter_tags m names) ≡ (if is_filtered names k then none else lookup k m)
  unfolding filter_tags is_filtered
  lookup-filter_tags m [] k = refl
  lookup-filter_tags m (n ∷ ns) k = lookup-without_names (n ∷ ns) m k

-- A filtered map has no tag whose key is one of the names, whatever the case, and every other tag as before;
-- a name that is empty takes out nothing.
pub lookup-filter_tags_cases :
    {V : Type 0} (m : Dict V) (names : List Str) (k : Str)
    → (IsNamed names k → lookup k (filter_tags m names) ≡ none)
      × ((IsNamed names k → ⊥) → lookup k (filter_tags m names) ≡ lookup k m)
lookup-filter_tags_cases m names k =
    let named = is_filtered-IsNamed names k in
    (
      (λ h. rw (lookup-filter_tags m names k, named.1 h) refl),
      (λ h. elim (Bool-cases (is_filtered names k)) [
        | inl yes_ ↦ absurd (h (named.0 yes_))
        | inr no_ ↦ rw (lookup-filter_tags m names k, no_) refl
      ]),
    )

-- Tags that are all texts, as the configuration holds them and as the SDK does.
abbrev pub texts : {Int : Type 0} → Dict Str → Dict (TagValue Int)
texts = map (λ e. (e.0, text e.1))

abbrev pub pointers : Dict Str → Dict (Option Str)
pointers = map (λ e. (e.0, some e.1))

-- Tags that are all texts are flattened as they were expanded.
pub flatten_tags-expand_tags :
    (Int : Type 0) (sprint : Int → Str) (m : Dict Str)
    → flatten_tags (pointers (expand_tags sprint (texts m))) ≡ ok m
unfolding flatten_tags expand_tags tag_value_to_string
flatten_tags-expand_tags Int sprint [] = refl
flatten_tags-expand_tags Int sprint ((k, v) ∷ m) =
    ap (λ r. r >>= λ rest. ok ((k, v) ∷ rest)) (flatten_tags-expand_tags Int sprint m)
