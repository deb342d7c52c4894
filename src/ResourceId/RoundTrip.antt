-- ===== src/ResourceId/RoundTrip.antt =====
-- `ParseAzureResourceID` after `composeAzureResourceID`.
use terraform_provider_azure.Base.{
  ◌%◌, ◌≡◌, refl, ◌≢◌, ◌⊎◌, inl, inr, Option, none, some, List, [], ◌∷◌, arith, ap, ◌∙◌, sym,
  if◌then◌else◌, is_some, Str, bytes, str_eq, str_eq_self, Dict, lookup, insert, erase,
  lookup-erase, get_or_empty, length, All, All-weaken, Outcome, ok, append_assoc, append-nil,
}
use terraform_provider_azure.Text.{joined}
use terraform_provider_azure.ResourceId.{
  ResourceId, IdError, collect, take_group, take_provider, parse_segments, keys,
  compose_azure_resource_id, parse_azure_resource_id,
}
use terraform_provider_azure.ResourceId.Segments.{segments, IsSegment, segments-joined}
use terraform_provider_azure.ResourceId.Sort.{sort_strings, mem-sort_strings}
use terraform_provider_azure.ResourceId.Written.{
  path_segments, insert_keys, str_eq-nil, compose_path-joined, All-path_segments,
  length-path_segments, collect-path_segments, lookup-insert_keys, mem-keys, IsEntry, lookup-absent,
  lookup-absent_of_eq, has_items, sorted-IsWritten, parse-joined, subscriptions-IsSegment,
  group-IsSegment, providers-IsSegment,
}

-- The map behind the subscription, before the parser takes its own keys out.
read_map : ResourceId → Dict Str
unfolding insert_keys
read_map r =
    insert_keys r.path (sort_strings (keys r.path))
      ((bytes "resourceGroups", r.group) ∷ (bytes "providers", r.provider) ∷ [])

written_segments : ResourceId → List Str
unfolding path_segments
written_segments r =
    r.subscription
    ∷ bytes "resourceGroups"
    ∷ r.group
    ∷ bytes "providers"
    ∷ r.provider
    ∷ path_segments r.path (sort_strings (keys r.path))

module _ (r : ResourceId) (sub : IsSegment r.subscription) (group : IsSegment r.group)
    (provider : IsSegment r.provider) (entries : All IsEntry r.path) where
  collect-written :
      collect (bytes "subscriptions" ∷ written_segments r) [] [] ≡ ok (r.subscription, read_map r)
  unfolding collect written_segments read_map str_eq insert
  collect-written =
      rw
        (
          str_eq-nil r.subscription sub.0,
          str_eq-nil r.group group.0,
          str_eq-nil r.provider provider.0,
        )
        (collect-path_segments r.path (sort_strings (keys r.path)) r.subscription
          ((bytes "resourceGroups", r.group) ∷ (bytes "providers", r.provider) ∷ []) sub.0
          (sorted-IsWritten r.path entries))

  lookup-read_map :
      (j : Str)
      → lookup j (read_map r) ≡ (
          if is_some (lookup j r.path)
          then some (get_or_empty (lookup j r.path))
          else lookup j ((bytes "resourceGroups", r.group) ∷ (bytes "providers", r.provider) ∷ []))
  unfolding read_map
  lookup-read_map j =
      rw
        (lookup-insert_keys r.path j (sort_strings (keys r.path))
          ((bytes "resourceGroups", r.group) ∷ (bytes "providers", r.provider) ∷ []))
        (rw (mem-sort_strings j (keys r.path), mem-keys j r.path))

  lookup-group : lookup (bytes "resourceGroups") r.path ≡ none
  lookup-group =
      lookup-absent (bytes "resourceGroups") r.path
        (All-weaken IsEntry (λ e. e.0 ≢ bytes "resourceGroups") r.path (λ e h. h.2) entries)

  lookup-provider : lookup (bytes "providers") r.path ≡ none
  lookup-provider =
      lookup-absent (bytes "providers") r.path
        (All-weaken IsEntry (λ e. e.0 ≢ bytes "providers") r.path (λ e h. h.3) entries)

  read_group : lookup (bytes "resourceGroups") (read_map r) ≡ some r.group
  unfolding lookup str_eq
  read_group = rw (lookup-read_map (bytes "resourceGroups"), lookup-group) refl

  read_provider :
      lookup (bytes "providers") (erase (bytes "resourceGroups") (read_map r)) ≡ some r.provider
  unfolding lookup str_eq
  read_provider =
      lookup-erase (bytes "resourceGroups") (bytes "providers") (read_map r)
      ∙ rw (lookup-read_map (bytes "providers"), lookup-provider)

  lookup-own :
      (j : Str)
      → lookup j ((bytes "resourceGroups", r.group) ∷ (bytes "providers", r.provider) ∷ []) ≡ (
          if str_eq (bytes "resourceGroups") j
          then some r.group
          else if str_eq (bytes "providers") j
          then some r.provider
          else none)
  unfolding lookup
  lookup-own j = refl

  length-written : length (bytes "subscriptions" ∷ written_segments r) % 2 ≡ 0
  unfolding written_segments
  length-written = omega (arith, length-path_segments r.path (sort_strings (keys r.path)))

  -- The map that is left.
  left_map : Dict Str
  left_map = erase (bytes "providers") (erase (bytes "resourceGroups") (read_map r))

  lookup-left_map : (j : Str) → lookup j left_map ≡ lookup j r.path
  unfolding left_map
  lookup-left_map j = ground (
    arith,
    lookup-erase (bytes "providers") j (erase (bytes "resourceGroups") (read_map r)),
    lookup-erase (bytes "resourceGroups") j (read_map r),
    lookup-read_map j,
    lookup-own j,
    lookup-absent_of_eq (bytes "providers") j r.path lookup-provider,
    lookup-absent_of_eq (bytes "resourceGroups") j r.path lookup-group,
  )

  parse_segments-written :
      (path : Str)
      → segments path ≡ bytes "subscriptions" ∷ written_segments r
      → parse_segments path ≡ ok (record r { path = left_map })
  unfolding parse_segments left_map
  parse_segments-written path e =
      rw (e, length-written, collect-written, str_eq-nil r.subscription sub.0)
        (rw (read_group, take_group) (rw (read_provider, take_provider)))

  compose-written :
      r.path ≢ []
      → compose_azure_resource_id r ≡ ok (joined b'/' (bytes "subscriptions" ∷ written_segments r))
  unfolding compose_azure_resource_id joined written_segments
  compose-written ne =
      rw
        (
          str_eq-nil r.subscription sub.0,
          str_eq-nil r.group group.0,
          str_eq-nil r.provider provider.0,
        )
        (rw (has_items r.path ne) (
          compose_path-joined r.path (sort_strings (keys r.path)) _
            (sorted-IsWritten r.path entries)
          ∙ ap ok (simp append_assoc)))

  All-written : All IsSegment (written_segments r)
  unfolding written_segments
  All-written = (
    sub,
    (
      group-IsSegment,
      (
        group,
        (
          providers-IsSegment,
          (
            provider,
            All-path_segments r.path (sort_strings (keys r.path)) (sorted-IsWritten r.path entries),
          ),
        ),
      ),
    ),
  )

  parse-written :
      (parse_authority : Str → Option Str)
      → parse_azure_resource_id parse_authority
          (joined b'/' (bytes "subscriptions" ∷ written_segments r))
        ≡ ok (record r { path = left_map })
  parse-written auth =
      parse-joined auth (bytes "subscriptions") (written_segments r) subscriptions-IsSegment
        All-written
      ∙ parse_segments-written _ (
          segments-joined (bytes "subscriptions") (written_segments r) subscriptions-IsSegment
            All-written)

-- A resource whose ID can be written and read back: without a provider it has no path, and with one
-- it has some.
pub record IsWellFormed (r : ResourceId) : Type 0 where
  pub subscription : IsSegment r.subscription
  pub group : IsSegment r.group
  pub rest : ((r.provider ≡ []) × (r.path ≡ [])) ⊎ (IsSegment r.provider × (r.path ≢ []))
  pub entries : All IsEntry r.path

-- The text is parsed to the resource: all fields alike, and the same value under every key.
abbrev pub ReadsBack : (Str → Option Str) → Str → ResourceId → Type 0
ReadsBack auth id r =
    (p : Dict Str) × (parse_azure_resource_id auth id ≡ ok (record r { path = p }))
    × ((j : Str) → lookup j p ≡ lookup j r.path)

module _ (r : ResourceId) (sub : IsSegment r.subscription) (group : IsSegment r.group)
    (no_provider : r.provider ≡ []) (no_path : r.path ≡ []) where
  group_segments : List Str
  group_segments = r.subscription ∷ bytes "resourceGroups" ∷ r.group ∷ []

  compose-group :
      compose_azure_resource_id r ≡ ok (joined b'/' (bytes "subscriptions" ∷ group_segments))
  unfolding compose_azure_resource_id joined group_segments
  compose-group =
      rw (str_eq-nil r.subscription sub.0, str_eq-nil r.group group.0, no_provider, str_eq_self [])
        (ap ok (simp (append_assoc, append-nil)))

  parse_segments-group :
      (path : Str)
      → segments path ≡ bytes "subscriptions" ∷ group_segments
      → parse_segments path ≡ ok (record r { path = [] })
  unfolding parse_segments group_segments collect str_eq insert take_group take_provider lookup
      erase
  parse_segments-group path e =
      rw (e, str_eq-nil r.subscription sub.0, str_eq-nil r.group group.0)
        (rw (str_eq-nil r.subscription sub.0) (
          ap {B = Outcome IdError ResourceId} (λ p. ok (record r { provider = p; path = [] }))
            (sym no_provider)))

  parse-group :
      (auth : Str → Option Str)
      → parse_azure_resource_id auth (joined b'/' (bytes "subscriptions" ∷ group_segments))
        ≡ ok (record r { path = [] })
  unfolding group_segments
  parse-group auth =
      let written : All IsSegment group_segments = (sub, (group-IsSegment, (group, tt))) in
      parse-joined auth (bytes "subscriptions") group_segments subscriptions-IsSegment written
      ∙ parse_segments-group _
          (segments-joined (bytes "subscriptions") group_segments subscriptions-IsSegment written)

-- `composeAzureResourceID` gives an ID for every well-formed resource, and `ParseAzureResourceID`
-- reads it back: the same subscription, group and provider, and the same value under every key of
-- the path.
pub compose-parse_azure_resource_id :
    (auth : Str → Option Str) (r : ResourceId)
    → IsWellFormed r
    → (id : Str) × (compose_azure_resource_id r ≡ ok id) × ReadsBack auth id r
compose-parse_azure_resource_id auth r h = elim h.rest [
  | inl (np, ne) ↦ (
    joined b'/' (bytes "subscriptions" ∷ group_segments r h.subscription h.group np ne),
    compose-group r h.subscription h.group np ne,
    ([], parse-group r h.subscription h.group np ne auth, λ j. rw ne),
  )
  | inr (p, ne) ↦ (
    joined b'/' (bytes "subscriptions" ∷ written_segments r),
    compose-written r h.subscription h.group p h.entries ne,
    (
      left_map r h.subscription h.group p h.entries,
      parse-written r h.subscription h.group p h.entries auth,
      lookup-left_map r h.subscription h.group p h.entries,
    ),
  )
]
