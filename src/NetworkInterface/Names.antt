-- ===== src/NetworkInterface/Names.antt =====
-- The ID that a create sets is read back by the reads and the deletes.
use terraform_provider_azure.Base.{
  ℕ, ◌≡◌, refl, ◌≢◌, Option, List, [], ◌∷◌, ◌++◌, arith, ap, sym, ◌∙◌, append_assoc, append-nil,
  Str, bytes, str_eq, lookup, insert, erase, ok, All, All-append, Bool, true, not, all, ◌==◌,
}
use terraform_provider_azure.Text.{split, joined, Avoids, split-joined}
use terraform_provider_azure.ResourceId.{
  ResourceId, IsSegment, is_segment, is_segment_sound, segments, segments-joined, collect,
  take_group, take_provider, parse_segments, parse_azure_resource_id,
}
use terraform_provider_azure.ResourceId.Written.{
  str_eq-nil, parse-joined, subscriptions-IsSegment, group-IsSegment, providers-IsSegment,
}
use terraform_provider_azure.NetworkInterface.Reference.{association_id, halves, reference_of}

-- A part of an ID: a segment without the separator of the association's ID.
abbrev pub IsPart : Str → Type 0
IsPart w = IsSegment w × Avoids b'|' w

joined-append :
    (sep : ℕ) (vs ws : List Str) → joined sep (vs ++ ws) ≡ joined sep vs ++ joined sep ws
unfolding joined
joined-append sep [] ws = refl
joined-append sep (v ∷ vs) ws =
    ap (λ r. sep ∷ (v ++ r)) (joined-append sep vs ws)
    ∙ ap (λ r. sep ∷ r) (sym (append_assoc v (joined sep vs) (joined sep ws)))

Avoids-joined : (ws : List Str) → All (Avoids b'|') ws → Avoids b'|' (joined b'/' ws)
unfolding joined
Avoids-joined [] h = tt
Avoids-joined (w ∷ ws) h =
    (omega arith, All-append (λ x. x ≢ b'|') w (joined b'/' ws) h.0 (Avoids-joined ws h.1))

unfoldable pub avoids : ℕ → Str → Bool
avoids c s = all (λ x. not (x == c)) s

pub avoids_sound : (c : ℕ) (s : Str) → avoids c s ≡ true → Avoids c s
unfolding avoids
avoids_sound c [] h = tt
avoids_sound c (x ∷ s) h = ground (arith, avoids_sound c s)

-- The segments of a network interface's ID, and of the first part of an association's.
abbrev pub nic_segments : Str → Str → Str → Str → List Str
nic_segments sub group provider nic =
    bytes "subscriptions"
    ∷ sub
    ∷ bytes "resourceGroups"
    ∷ group
    ∷ bytes "providers"
    ∷ provider
    ∷ bytes "networkInterfaces"
    ∷ nic
    ∷ []

abbrev own_segments : Str → List Str
own_segments name = bytes "ipConfigurations" ∷ name ∷ []

collect-nic :
    (sub group provider nic name : Str)
    → sub ≢ []
    → group ≢ []
    → provider ≢ []
    → nic ≢ []
    → name ≢ []
    → collect (nic_segments sub group provider nic ++ own_segments name) [] []
      ≡ ok (
        sub,
        (bytes "resourceGroups", group)
            ∷ (bytes "providers", provider)
            ∷ (bytes "networkInterfaces", nic)
            ∷ (bytes "ipConfigurations", name)
            ∷ [],
      )
unfolding collect str_eq insert
collect-nic sub group provider nic name h1 h2 h3 h4 h5 =
    rw
      (
        str_eq-nil sub h1,
        str_eq-nil group h2,
        str_eq-nil provider h3,
        str_eq-nil nic h4,
        str_eq-nil name h5,
      )
      refl

association_id-joined :
    (base name target : Str)
    → association_id base name target
      ≡ (base ++ joined b'/' (own_segments name)) ++ joined b'|' (target ∷ [])
unfolding association_id joined
association_id-joined base name target = simp (append_assoc, append-nil)

module _ (sub group provider nic name : Str) (sub_part : IsPart sub) (group_part : IsPart group)
    (provider_part : IsPart provider) (nic_part : IsPart nic) (name_part : IsPart name) where
  abbrev own : List Str
  own = nic_segments sub group provider nic ++ own_segments name

  abbrev tail : List Str
  tail =
      sub
      ∷ bytes "resourceGroups"
      ∷ group
      ∷ bytes "providers"
      ∷ provider
      ∷ bytes "networkInterfaces"
      ∷ nic
      ∷ own_segments name

  tail-IsSegment : All IsSegment tail
  unfolding is_segment
  tail-IsSegment = (
    sub_part.0,
    (
      group-IsSegment,
      (
        group_part.0,
        (
          providers-IsSegment,
          (
            provider_part.0,
            (
              is_segment_sound (bytes "networkInterfaces") refl,
              (nic_part.0, (is_segment_sound (bytes "ipConfigurations") refl, (name_part.0, tt))),
            ),
          ),
        ),
      ),
    ),
  )

  abbrev parsed : ResourceId
  parsed = record {
    subscription = sub;
    group = group;
    provider = provider;
    path = (bytes "networkInterfaces", nic) ∷ (bytes "ipConfigurations", name) ∷ [];
  }

  parse_segments-own : (path : Str) → segments path ≡ own → parse_segments path ≡ ok parsed
  unfolding parse_segments take_group take_provider lookup erase str_eq
  parse_segments-own path e =
      rw
        (
          e,
          collect-nic sub group provider nic name sub_part.0.0 group_part.0.0 provider_part.0.0
              nic_part.0.0 name_part.0.0,
          str_eq-nil sub sub_part.0.0,
        )
        refl

  parse-own : (auth : Str → Option Str) → parse_azure_resource_id auth (joined b'/' own) ≡ ok parsed
  parse-own auth =
      parse-joined auth (bytes "subscriptions") tail subscriptions-IsSegment tail-IsSegment
      ∙ parse_segments-own _
          (segments-joined (bytes "subscriptions") tail subscriptions-IsSegment tail-IsSegment)

  own-Avoids : Avoids b'|' (joined b'/' own)
  unfolding avoids
  own-Avoids =
      let literal : (w : Str) → avoids b'|' w ≡ true → Avoids b'|' w = avoids_sound b'|' in
      Avoids-joined own (
        literal (bytes "subscriptions") refl,
        (
          sub_part.1,
          (
            literal (bytes "resourceGroups") refl,
            (
              group_part.1,
              (
                literal (bytes "providers") refl,
                (
                  provider_part.1,
                  (
                    literal (bytes "networkInterfaces") refl,
                    (nic_part.1, (literal (bytes "ipConfigurations") refl, (name_part.1, tt))),
                  ),
                ),
              ),
            ),
          ),
        ),
      )

  split-own :
      (target : Str)
      → Avoids b'|' target
      → split b'|' (association_id (joined b'/' (nic_segments sub group provider nic)) name target)
        ≡ joined b'/' own ∷ target ∷ []
  split-own target h =
      let base : Str = joined b'/' (nic_segments sub group provider nic) in
      ap (split b'|') (
        association_id-joined base name target
        ∙ ap (λ r. r ++ joined b'|' (target ∷ []))
            (sym (joined-append b'/' (nic_segments sub group provider nic) (own_segments name))))
      ∙ split-joined b'|' (joined b'/' own) (target ∷ []) own-Avoids (h, tt)

  -- Where no part of the ID of a network interface, of the configuration's name and of the target's ID holds the separator, and
  -- the parts are segments, the ID of an association says what it was written from.
  pub reference_of-association_id :
      (auth : Str → Option Str) (target : Str)
      → Avoids b'|' target
      → reference_of auth
          (association_id (joined b'/' (nic_segments sub group provider nic)) name target)
        ≡ ok (record { group = group; nic = nic; configuration = name; target = target })
  unfolding reference_of halves lookup str_eq
  reference_of-association_id auth target h = rw (split-own target h, parse-own auth) refl
