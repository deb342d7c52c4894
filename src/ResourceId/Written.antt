-- ===== src/ResourceId/Written.antt =====
-- The loops of `composeAzureResourceID` and `ParseAzureResourceID`, one after the other: the
-- segments that the first writes for a map, and the map that the second makes of them.
use terraform_provider_azure.Base.{
  ◌%◌, ◌≡◌, refl, ◌≢◌, inl, inr, true, false, Option, none, some, List, [], ◌∷◌, ◌++◌, arith, ap,
  ◌∙◌, sym, ◌==◌, if◌then◌else◌, Bool-cases, is_some, Str, bytes, str_eq, str_eq_iff, or-true,
  str_eq_self, Dict, lookup, insert, lookup-insert, get_or_empty, length, All, ok, append_assoc,
  append-nil,
}
use terraform_provider_azure.Text.{joined}
use terraform_provider_azure.Url.{parse_request_uri-plain}
use terraform_provider_azure.ResourceId.{
  collect, parse_segments, compose_path, keys, parse_azure_resource_id,
}
use terraform_provider_azure.ResourceId.Segments.{
  bare_path, IsSegment, is_segment, is_segment_sound, joined-IsPathByte,
}
use terraform_provider_azure.ResourceId.Sort.{sort_strings, mem, All-sort_strings}

-- The segments that the loop over the keys writes.
unfoldable pub path_segments : Dict Str → List Str → List Str
path_segments m [] = []
path_segments m (k ∷ ks) = k ∷ get_or_empty (lookup k m) ∷ path_segments m ks

-- What the parser's loop makes of them.
unfoldable pub insert_keys : Dict Str → List Str → Dict Str → Dict Str
insert_keys m [] acc = acc
insert_keys m (k ∷ ks) acc = insert_keys m ks (insert k (get_or_empty (lookup k m)) acc)

-- The key is written with its value.
abbrev pub IsWritten : Dict Str → Str → Type 0
IsWritten m k = IsSegment k × IsSegment (get_or_empty (lookup k m))

pub str_eq-nil : (w : Str) → w ≢ [] → str_eq w [] ≡ false
str_eq-nil w h = ground (arith, str_eq_iff w [])

module _ (m : Dict Str) where
  pub compose_path-joined :
      (ks : List Str) (id : Str)
      → All (IsWritten m) ks
      → compose_path m ks id ≡ ok (id ++ joined b'/' (path_segments m ks))
  unfolding compose_path path_segments joined
  compose_path-joined [] id h = ap ok (sym (append-nil id))
  compose_path-joined (k ∷ ks) id h =
      let v = get_or_empty (lookup k m) in
      rw (str_eq-nil k h.0.0.0, str_eq-nil v h.0.1.0)
        (compose_path-joined ks (id ++ bytes "/" ++ k ++ bytes "/" ++ v) h.1
          ∙ ap ok (simp append_assoc))

  pub All-path_segments :
      (ks : List Str) → All (IsWritten m) ks → All IsSegment (path_segments m ks)
  unfolding path_segments
  All-path_segments [] h = tt
  All-path_segments (k ∷ ks) h = (h.0.0, (h.0.1, All-path_segments ks h.1))

  pub length-path_segments : (ks : List Str) → length (path_segments m ks) % 2 ≡ 0
  unfolding path_segments
  length-path_segments [] = refl
  length-path_segments (k ∷ ks) = omega (arith, length-path_segments ks)

  pub collect-path_segments :
      (ks : List Str) (sub : Str) (acc : Dict Str)
      → sub ≢ []
      → All (IsWritten m) ks
      → collect (path_segments m ks) sub acc ≡ ok (sub, insert_keys m ks acc)
  unfolding collect path_segments insert_keys
  collect-path_segments [] sub acc ne h = refl
  collect-path_segments (k ∷ ks) sub acc ne h = ground (
    arith,
    collect-path_segments ks sub (insert k (get_or_empty (lookup k m)) acc) ne h.1,
    str_eq_iff sub [],
    str_eq_iff k [],
    str_eq_iff (get_or_empty (lookup k m)) [],
  )

  pub lookup-insert_keys :
      (j : Str) (ks : List Str) (acc : Dict Str)
      → lookup j (insert_keys m ks acc)
        ≡ (if mem j ks then some (get_or_empty (lookup j m)) else lookup j acc)
  unfolding insert_keys mem
  lookup-insert_keys j [] acc = refl
  lookup-insert_keys j (k ∷ ks) acc = ground (
    arith,
    lookup-insert_keys j ks (insert k (get_or_empty (lookup k m)) acc),
    lookup-insert k j (get_or_empty (lookup k m)) acc,
    str_eq_iff k j,
  )

pub mem-keys : (j : Str) (m : Dict Str) → mem j (keys m) ≡ is_some (lookup j m)
unfolding mem lookup
mem-keys j [] = refl
mem-keys j ((k, v) ∷ m) = ground (arith, mem-keys j m)

-- An entry that an ID can hold under the parser's own keys.
abbrev pub IsEntry : Str × Str → Type 0
IsEntry e =
    IsSegment e.0 × IsSegment e.1 × (e.0 ≢ bytes "resourceGroups") × (e.0 ≢ bytes "providers")

pub lookup-IsEntry :
    (k : Str) (m : Dict Str)
    → All IsEntry m
    → mem k (keys m) ≡ true
    → IsSegment (get_or_empty (lookup k m))
unfolding mem lookup
lookup-IsEntry k [] h e = cc
lookup-IsEntry k ((j, v) ∷ m) h e = elim (Bool-cases (str_eq j k)) [
  | inl same ↦ rw same h.0.1
  | inr other ↦ rw other (lookup-IsEntry k m h.1 (rw other at e))
]

pub lookup-absent : (k : Str) (m : Dict Str) → All (λ e. e.0 ≢ k) m → lookup k m ≡ none
unfolding lookup
lookup-absent k [] h = refl
lookup-absent k ((j, v) ∷ m) h = ground (arith, str_eq_iff j k, lookup-absent k m h.1)

pub All-of_mem {ℓ} :
    (P : Str → Type ℓ) (ks : List Str) → ((k : Str) → mem k ks ≡ true → P k) → All P ks
unfolding mem
All-of_mem P [] f = tt
All-of_mem P (k ∷ ks) f =
    (f k (rw (str_eq_self k)), All-of_mem P ks (λ j e. f j (rw e (or-true (str_eq k j)))))

pub key-IsSegment : (k : Str) (m : Dict Str) → All IsEntry m → mem k (keys m) ≡ true → IsSegment k
unfolding mem
key-IsSegment k [] h e = cc
key-IsSegment k ((j, v) ∷ m) h e = elim (Bool-cases (str_eq j k)) [
  | inl same ↦ rw (← (str_eq_iff j k).0 same) h.0.0
  | inr other ↦ key-IsSegment k m h.1 (rw other at e)
]

-- What the loop over the sorted keys needs holds of a map of entries.
pub sorted-IsWritten : (m : Dict Str) → All IsEntry m → All (IsWritten m) (sort_strings (keys m))
sorted-IsWritten m h =
    All-sort_strings (IsWritten m) (keys m)
      (All-of_mem (IsWritten m) (keys m) (λ k e. (key-IsSegment k m h e, lookup-IsEntry k m h e)))

pub lookup-absent_of_eq :
    (k j : Str) (m : Dict Str) → lookup k m ≡ none → str_eq k j ≡ true → lookup j m ≡ none
lookup-absent_of_eq k j m h e = rw (← (str_eq_iff k j).0 e) h

pub has_items : (m : Dict Str) → m ≢ [] → (length m == 0) ≡ false
has_items [] h = absurd (h refl)
has_items (e ∷ m) h = ground arith

pub subscriptions-IsSegment : IsSegment (bytes "subscriptions")
unfolding is_segment
subscriptions-IsSegment = is_segment_sound (bytes "subscriptions") refl

pub group-IsSegment : IsSegment (bytes "resourceGroups")
unfolding is_segment
group-IsSegment = is_segment_sound (bytes "resourceGroups") refl

pub providers-IsSegment : IsSegment (bytes "providers")
unfolding is_segment
providers-IsSegment = is_segment_sound (bytes "providers") refl

pub parse-joined :
    (auth : Str → Option Str) (w : Str) (ws : List Str)
    → IsSegment w
    → All IsSegment ws
    → parse_azure_resource_id auth (joined b'/' (w ∷ ws))
      ≡ parse_segments (bare_path (joined b'/' (w ∷ ws)))
unfolding parse_azure_resource_id joined
parse-joined auth w ws h hs =
    rw (parse_request_uri-plain auth (w ++ joined b'/' ws) (joined-IsPathByte (w ∷ ws) (h, hs)).1)
