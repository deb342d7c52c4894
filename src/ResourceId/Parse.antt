-- ===== src/ResourceId/Parse.antt =====
-- What every parse of an ID guarantees, whatever the text.
use terraform_provider_azure.Base.{
  ℕ, ◌%◌, ◌≡◌, ◌≢◌, inl, inr, Bool, true, false, ◌||◌, ◌&&◌, not, Option, none, some, List, [], ◌∷◌,
  arith, ◌==◌, if◌then◌else◌, Bool-cases, Option-cases, Str, bytes, str_eq, str_eq_iff, Dict,
  lookup, insert, erase, lookup-erase, get_or_empty, ap, ◌∙◌, length, All, refl, wrap, wrap-eq-ok,
  >>=-eq-ok, ok, panic, Ensures, Ensures->>=, Ensures-fail_if, Ensures-ok, Safe, safe_ok, safe_err,
  returns, Safe->>=, Safe-fail_if, Safe-wrap, Safe-ne-panic,
}
use terraform_provider_azure.Url.{Url, parse_request_uri}
use terraform_provider_azure.Url.Safety.{parse_request_uri-Safe}
use terraform_provider_azure.ResourceId.{
  ResourceId, no_subscription, bad_url, collect, take_group, take_provider, parse_segments,
  parse_azure_resource_id,
}
use terraform_provider_azure.ResourceId.Segments.{bare_path, segments}

-- No key and no value of the map is empty.
abbrev pub HasText : Dict Str → Type 0
HasText = All (λ e. (e.0 ≢ []) × (e.1 ≢ []))

insert-HasText : (k v : Str) (m : Dict Str) → HasText m → k ≢ [] → v ≢ [] → HasText (insert k v m)
unfolding insert
insert-HasText k v [] h nk nv = ((nk, nv), tt)
insert-HasText k v ((j, w) ∷ m) h nk nv = elim (Bool-cases (str_eq j k)) [
  | inl same ↦ rw same ((nk, nv), h.1)
  | inr other ↦ rw other (h.0, insert-HasText k v m h.1 nk nv)
]

erase-HasText : (k : Str) (m : Dict Str) → HasText m → HasText (erase k m)
unfolding erase
erase-HasText k [] h = tt
erase-HasText k ((j, w) ∷ m) h = elim (Bool-cases (str_eq j k)) [
  | inl same ↦ rw same (erase-HasText k m h.1)
  | inr other ↦ rw other (h.0, erase-HasText k m h.1)
]

lookup-HasText : (k v : Str) (m : Dict Str) → HasText m → lookup k m ≡ some v → v ≢ []
unfolding lookup
lookup-HasText k v [] h e = cc
lookup-HasText k v ((j, w) ∷ m) h e = elim (Bool-cases (str_eq j k)) [
  | inl same ↦ ground (arith, h.0.1)
  | inr other ↦ lookup-HasText k v m h.1 (rw other at e)
]

-- Whether the pair is the subscription that the loop keeps apart.
is_subscription : Str → Str → Bool
is_subscription k sub = str_eq k (bytes "subscriptions") && str_eq sub []

-- One round of the loop that went on.
collect-cons :
    (k v : Str) (ws : List Str) (sub : Str) (m : Dict Str) (sub' : Str) (m' : Dict Str)
    → collect (k ∷ v ∷ ws) sub m ≡ ok (sub', m')
    → (k ≢ [])
      × (v ≢ [])
      × (collect ws
            (if is_subscription k sub then v else sub)
            (if is_subscription k sub then m else insert k v m)
          ≡ ok (sub', m'))
unfolding collect is_subscription
collect-cons k v ws sub m sub' m' e = ground (arith, str_eq_iff k [], str_eq_iff v [])

if-HasText : (b : Bool) (m n : Dict Str) → HasText m → HasText n → HasText (if b then m else n)
if-HasText true m n h k = h
if-HasText false m n h k = k

collect-HasText :
    (ws : List Str) (sub : Str) (m : Dict Str) (sub' : Str) (m' : Dict Str)
    → HasText m
    → collect ws sub m ≡ ok (sub', m')
    → HasText m'
unfolding collect
collect-HasText [] sub m sub' m' h e = let q : m ≡ m' = ground arith in rw (← q) h
collect-HasText (k ∷ []) sub m sub' m' h e = cc
collect-HasText (k ∷ v ∷ ws) sub m sub' m' h e =
    let (nk, nv, rest) = collect-cons k v ws sub m sub' m' e in
    collect-HasText ws (if is_subscription k sub then v else sub)
      (if is_subscription k sub then m else insert k v m) sub' m'
      (if-HasText (is_subscription k sub) m (insert k v m) h (insert-HasText k v m h nk nv)) rest

-- The key under which a map has the resource group, by what it has under `resourceGroups`.
abbrev key_for : Option Str → Str
key_for none = bytes "resourcegroups"
key_for (some g) = bytes "resourceGroups"

abbrev pub group_key : Dict Str → Str
group_key m = key_for (lookup (bytes "resourceGroups") m)

key_for-ne : (found : Option Str) → str_eq (key_for found) (bytes "providers") ≡ false
unfolding str_eq
key_for-ne none = refl
key_for-ne (some g) = refl

provider_stays :
    (m : Dict Str)
    → lookup (bytes "providers") (erase (group_key m) m) ≡ lookup (bytes "providers") m
provider_stays m = ground (
  arith,
  lookup-erase (group_key m) (bytes "providers") m,
  key_for-ne (lookup (bytes "resourceGroups") m),
)

take_group_lem :
    (path : Str) (m : Dict Str) (g : Str) (left : Dict Str)
    → take_group path m ≡ ok (g, left)
    → (lookup (group_key m) m ≡ some g) × (left ≡ erase (group_key m) m)
unfolding take_group
take_group_lem path m g left e = elim (Option-cases (lookup (bytes "resourceGroups") m)) [
  | inr (v, found) ↦ (ground arith, ground arith)
  | inl missing ↦ elim (Option-cases (lookup (bytes "resourcegroups") m)) [
    | inl neither ↦ absurd (ground arith)
    | inr (v, found) ↦ (ground arith, ground arith)
  ]
]

take_provider_lem :
    (m : Dict Str)
    → HasText m
    → HasText (take_provider m).1
      × ((take_provider m).0 ≡ get_or_empty (lookup (bytes "providers") m))
      × ((k : Str)
          → lookup k (take_provider m).1
            ≡ (if str_eq (bytes "providers") k then none else lookup k m))
unfolding take_provider
take_provider_lem m h = elim (Option-cases (lookup (bytes "providers") m)) [
  | inl missing ↦ (
    rw (missing, take_provider) h,
    ground arith,
    λ k. ground (
      arith,
      str_eq_iff (bytes "providers") k,
      ap (λ j. lookup j m) {x = bytes "providers"} {y = k},
    ),
  )
  | inr (v, found) ↦ (
    rw (found, take_provider) (erase-HasText (bytes "providers") m h),
    ground arith,
    λ k. ground (arith, lookup-erase (bytes "providers") k m),
  )
]

-- What a parsed ID is of the map that the loop over the segments gives.
pub record IsParsed (m : Dict Str) (r : ResourceId) : Type 0 where
  pub subscription : r.subscription ≢ []
  pub group : r.group ≢ []
  pub text : HasText r.path
  pub own_group : lookup (group_key m) m ≡ some r.group
  pub own_provider : r.provider ≡ get_or_empty (lookup (bytes "providers") m)
  pub path :
      (k : Str)
      → lookup k r.path
        ≡ (if str_eq (group_key m) k || str_eq (bytes "providers") k then none else lookup k m)

not_empty : (s : Str) → str_eq s [] ≡ false → s ≢ []
not_empty s h = ground (arith, str_eq_iff s [])

is_even : (n : ℕ) → not (n % 2 == 0) ≡ false → n % 2 ≡ 0
is_even n h = ground arith

-- The parsed ID, with the map.
abbrev pub ParsedOf : Str → ResourceId → Type 0
ParsedOf path r =
    (m : Dict Str) × (collect (segments path) [] [] ≡ ok (r.subscription, m)) × IsParsed m r

parse_segments-ParsedOf : (path : Str) → Ensures (ParsedOf path) (parse_segments path)
unfolding parse_segments
parse_segments-ParsedOf path =
    Ensures-fail_if (ParsedOf path) (not (length (segments path) % 2 == 0)) _ _ λ even.
      Ensures->>= (ParsedOf path) _ _ λ (sub, m) collected.
        Ensures-fail_if (ParsedOf path) _ _ _ λ has_sub.
          Ensures->>= (ParsedOf path) _ _ λ (g, left) grouped.
            let text = collect-HasText (segments path) [] [] sub m tt collected in
            let (own, erased) = take_group_lem path m g left grouped in
            let left_text : HasText left = rw erased (erase-HasText (group_key m) m text) in
            let (last_text, provider, keys) = take_provider_lem left left_text in
            returns (
              m,
              collected,
              record {
                subscription = λ e. not_empty sub has_sub e;
                group = lookup-HasText (group_key m) g m text own;
                text = last_text;
                own_group = own;
                own_provider =
                    provider
                    ∙ ap (λ x. get_or_empty (lookup (bytes "providers") x)) erased
                    ∙ ap get_or_empty (provider_stays m);
                path = λ k.
                    ground
                      (arith, keys k, ap (λ x. lookup k x) erased, lookup-erase (group_key m) k m);
              },
            )

-- A parsed ID has a subscription and a resource group, which are not empty, and neither are the keys and the
-- values of its path. The group is that under `resourceGroups` in the map of the ID's segments, or under
-- `resourcegroups` if there is none; the provider is that under `providers`, if any. The path is the map
-- without these two keys: where an ID has both keys of a group, the other one stays.
pub parse_azure_resource_id-IsParsed :
    (auth : Str → Option Str) (id : Str) (r : ResourceId)
    → parse_azure_resource_id auth id ≡ ok r
    → (u : Url) × (m : Dict Str) × (parse_request_uri auth id ≡ ok u)
      × (collect (segments (bare_path u.path)) [] [] ≡ ok (r.subscription, m))
      × IsParsed m r
unfolding parse_azure_resource_id
parse_azure_resource_id-IsParsed auth id r e =
    let (u, parsed, rest) =
      >>=-eq-ok (wrap bad_url (parse_request_uri auth id))
        (λ (url : Url). parse_segments (bare_path url.path)) e in
    let (m, collected, is_parsed) =
      Ensures-ok (ParsedOf (bare_path u.path)) _ r (parse_segments-ParsedOf (bare_path u.path))
        rest in
    (u, m, wrap-eq-ok bad_url (parse_request_uri auth id) parsed, collected, is_parsed)

-- The loop over pairs does not run past the end of an even number of segments.
collect-Safe :
    (ws : List Str) (sub : Str) (m : Dict Str) → length ws % 2 ≡ 0 → Safe (collect ws sub m)
unfolding collect
collect-Safe [] sub m h = safe_ok
collect-Safe (k ∷ []) sub m h = absurd (omega arith)
collect-Safe (k ∷ v ∷ ws) sub m h = elim (Bool-cases (str_eq k [] || str_eq v [])) [
  | inl stop ↦ rw stop safe_err
  | inr go ↦ rw go (collect-Safe ws _ _ (omega arith))
]

take_group-Safe : (path : Str) (m : Dict Str) → Safe (take_group path m)
unfolding take_group
take_group-Safe path m = elim (Option-cases (lookup (bytes "resourceGroups") m)) [
  | inr (v, found) ↦ rw (found, take_group) safe_ok
  | inl missing ↦ elim (Option-cases (lookup (bytes "resourcegroups") m)) [
    | inr (v, found) ↦ rw (missing, take_group) (rw (found, take_group) safe_ok)
    | inl neither ↦ rw (missing, take_group) (rw (neither, take_group) safe_err)
  ]
]

parse_segments-Safe : (path : Str) → Safe (parse_segments path)
unfolding parse_segments
parse_segments-Safe path = Safe-fail_if (not (length (segments path) % 2 == 0)) _ _ λ even.
    Safe->>= _ _ (collect-Safe (segments path) [] [] (is_even _ even)) λ (sub, m) collected.
      Safe-fail_if (str_eq sub []) (no_subscription path) _
        λ has_sub. Safe->>= _ _ (take_group-Safe path m) λ (g, left) grouped. safe_ok

-- Parsing an ID never panics, whatever the text: the pairs are never read past the last segment.
pub parse_azure_resource_id-ne-panic :
    (auth : Str → Option Str) (id : Str) → parse_azure_resource_id auth id ≢ panic
unfolding parse_azure_resource_id
parse_azure_resource_id-ne-panic auth id = Safe-ne-panic (parse_azure_resource_id auth id) (
    Safe->>= _ _ (Safe-wrap _ _ (parse_request_uri-Safe auth id))
      λ (url : Url) _. parse_segments-Safe (bare_path url.path))
