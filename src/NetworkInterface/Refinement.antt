-- ===== src/NetworkInterface/Refinement.antt =====
-- What an association means: the IDs of the targets, of one kind, of each named configuration. A create and a
-- delete change the network interface as they change this map.
use terraform_provider_azure.Base.{
  ◌≡◌, refl, Option, none, some, List, [], ◌∷◌, ◌++◌, arith, inl, inr, ap, ◌∙◌, ◌⊎◌, ◌>>=◌,
  Option-cases, Bool-cases, if◌then◌else◌, Str, str_eq, str_eq_iff, Outcome, ok, err, panic,
}
use mathlib.Core.Path.{fun_ext}
use terraform_provider_azure.Helpers.NetworkInterface.{
  find_ip_configuration, update_ip_configuration, find-update_ip_configuration,
}
use terraform_provider_azure.NetworkInterface.Model.{
  Target, IpProperties, Configuration, NicProperties, Nic, NicError, no_properties,
  no_configurations, no_configuration, no_ip_properties, Kind, list_or_empty, configurations,
  select, unless_exists, put_targets, associate, dissociate,
}
use terraform_provider_azure.NetworkInterface.Targets.{
  Associations, mem, update, add, drop_id, target_ids, target_ids-append, target_ids-without,
  unless_exists_old, with_id, target_ids-with_id, unless_exists_new, find_named-name,
}

module _ {R : Type 0} (kind : Kind R) where
  -- What a list of configurations says of a name.
  unfoldable pub targets_in : List (Configuration R) → Str → Option (List Str)
  targets_in configs name = elim (find_ip_configuration (some configs) name) [
    | none ↦ none
    | some c ↦ elim c.properties [
      | none ↦ none
      | some p ↦ some (target_ids (list_or_empty (kind.targets p)))
    ]
  ]

  unfoldable pub associations : Nic R → Associations
  unfolding targets_in
  associations nic name = elim nic.properties [
    | none ↦ none
    | some p ↦ elim p.ip_configurations [ none ↦ none | some configs ↦ targets_in configs name ]
  ]

  -- The same of a result.
  abbrev pub seen : Outcome NicError (Nic R) → Outcome (Unit {0}) Associations
  seen (ok nic) = ok (associations nic)
  seen (err e) = err tt
  seen panic = panic

  -- The configuration with its new targets, and the network interface with its new configurations.
  abbrev pub changed : Configuration R → IpProperties R → List (Target R) → Configuration R
  changed c p ts = record c { properties = some (kind.set_targets ts p) }

  abbrev pub rebuilt : Nic R → NicProperties R → List (Configuration R) → Nic R
  rebuilt nic props out = record nic {
    properties = some (record props { ip_configurations = some out });
  }

  pub put_targets-rebuilt :
      (nic : Nic R) (props : NicProperties R) (configs out : List (Configuration R))
      (c : Configuration R) (p : IpProperties R) (ts : List (Target R))
      → nic.properties ≡ some props
      → update_ip_configuration (changed c p ts) (some configs) ≡ ok out
      → put_targets kind nic configs c p ts ≡ ok (rebuilt nic props out)
  unfolding put_targets
  put_targets-rebuilt nic props configs out c p ts has_props runs = ground arith

  pub rebuilt-associations :
      (nic : Nic R) (props : NicProperties R) (configs out : List (Configuration R)) (name : Str)
      (c : Configuration R) (p : IpProperties R) (ts : List (Target R)) (other : Str)
      → nic.properties ≡ some props
      → props.ip_configurations ≡ some configs
      → find_ip_configuration (some configs) name ≡ some c
      → find_ip_configuration (some out) other ≡ (
          if str_eq name other
          then elim (find_ip_configuration (some configs) other) [
            | none ↦ none
            | some v ↦ some (changed c p ts)
          ]
          else find_ip_configuration (some configs) other)
      → associations (rebuilt nic props out) other
        ≡ update (associations nic) name (target_ids ts) other
  unfolding associations targets_in
  rebuilt-associations nic props configs out name c p ts other has_props has_configs at_name finds =
      ground (arith, kind.targets_set ts p, str_eq_iff name other)

  put_targets-associations :
      (nic : Nic R) (props : NicProperties R) (configs : List (Configuration R)) (name : Str)
      (c : Configuration R) (p : IpProperties R) (ts : List (Target R))
      → nic.properties ≡ some props
      → props.ip_configurations ≡ some configs
      → find_ip_configuration (some configs) name ≡ some c
      → seen (put_targets kind nic configs c p ts)
        ≡ ok (update (associations nic) name (target_ids ts))
  unfolding find_ip_configuration
  put_targets-associations nic props configs name c p ts has_props has_configs at_name =
      let (out, runs, finds) =
        find-update_ip_configuration (changed c p ts) name configs
          (find_named-name configs name c at_name) in
      ap seen (put_targets-rebuilt nic props configs out c p ts has_props runs)
      ∙ ap ok (
          fun_ext λ other.
            rebuilt-associations nic props configs out name c p ts other has_props has_configs
              at_name (finds other))

  -- The network interface has the named configuration, with properties.
  pub record IsSelected (name : Str) (nic : Nic R) : Type 0 where
    pub props : NicProperties R
    pub configs : List (Configuration R)
    pub config : Configuration R
    pub p : IpProperties R
    pub has_props : nic.properties ≡ some props
    pub has_configs : props.ip_configurations ≡ some configs
    pub at_name : find_ip_configuration (some configs) name ≡ some config
    pub has_p : config.properties ≡ some p
    pub read_configs : configurations nic ≡ ok configs
    pub selected : select configs name ≡ ok (config, p)
    pub means : associations nic name ≡ some (target_ids (list_or_empty (kind.targets p)))

  -- One of the two steps in front of a change is an error, and the map has no such name.
  pub record IsRefused (name : Str) (nic : Nic R) : Type 0 where
    pub reason : NicError
    pub steps :
        (configurations nic ≡ err reason)
        ⊎ ((cs : List (Configuration R)) × (configurations nic ≡ ok cs)
            × (select cs name ≡ err reason))
    pub absent : associations nic name ≡ none

  pub select-cases : (name : Str) (nic : Nic R) → IsRefused name nic ⊎ IsSelected name nic
  unfolding configurations select associations targets_in
  select-cases name nic = elim (Option-cases nic.properties) [
    | inl e ↦
        inl (record { reason = no_properties; steps = inl (ground arith); absent = ground arith })
    | inr (ps, e1) ↦ elim (Option-cases ps.ip_configurations) [
      | inl e ↦
          inl (record {
            reason = no_configurations;
            steps = inl (ground arith);
            absent = ground arith;
          })
      | inr (cs, e2) ↦ elim (Option-cases (find_ip_configuration (some cs) name)) [
        | inl e ↦ inl (record {
          reason = no_configuration;
          steps = inr (cs, ground arith, ground arith);
          absent = ground arith;
        })
        | inr (c, e3) ↦ elim (Option-cases c.properties) [
          | inl e ↦ inl (record {
            reason = no_ip_properties;
            steps = inr (cs, ground arith, ground arith);
            absent = ground arith;
          })
          | inr (q, e4) ↦ inr (record {
            props = ps;
            configs = cs;
            config = c;
            p = q;
            has_props = e1;
            has_configs = e2;
            at_name = e3;
            has_p = e4;
            read_configs = ground arith;
            selected = ground arith;
            means = ground arith;
          })
        ]
      ]
    ]
  ]

  pub refused :
      {A : Type 0} (name : Str) (nic : Nic R)
      (next : List (Configuration R) → Configuration R × IpProperties R → Outcome NicError A)
      (r : IsRefused name nic)
      → (configurations nic >>= λ cs. select cs name >>= next cs) ≡ err r.reason
  refused name nic next r = elim r.steps [ inl e ↦ ground arith | inr (cs, e, e') ↦ ground arith ]

  pub chosen :
      {A : Type 0} (name : Str) (nic : Nic R)
      (next : List (Configuration R) → Configuration R × IpProperties R → Outcome NicError A)
      (s : IsSelected name nic)
      → (configurations nic >>= λ cs. select cs name >>= next cs) ≡ next s.configs (s.config, s.p)
  chosen name nic next s = rw (s.read_configs, s.selected) refl

  abbrev pub fresh : Str → Target R
  fresh id = record { id = some id; rest = none }

  pub target_ids-fresh :
      (id : Str) (ts : List (Target R))
      → target_ids (with_id ts ++ fresh id ∷ []) ≡ target_ids ts ++ id ∷ []
  unfolding target_ids
  target_ids-fresh id ts =
      target_ids-append (with_id ts) (fresh id ∷ [])
      ∙ ap (λ xs. xs ++ id ∷ []) (target_ids-with_id ts)

  associate-selected :
      (name id : Str) (nic : Nic R) (s : IsSelected name nic) (ts : List (Target R))
      → ts ≡ list_or_empty (kind.targets s.p)
      → seen (
          unless_exists id ts >>= λ kept.
          put_targets kind nic s.configs s.config s.p (kept ++ fresh id ∷ []))
        ≡ add name id (associations nic)
  associate-selected name id nic s ts same = elim (Bool-cases (mem id (target_ids ts))) [
    | inl old ↦ ground (arith, unless_exists_old id ts, s.means)
    | inr new ↦ ground (
      arith,
      unless_exists_new id ts new,
      put_targets-associations nic s.props s.configs name s.config s.p (with_id ts ++ fresh id ∷ [])
          s.has_props s.has_configs s.at_name,
      target_ids-fresh id ts,
      s.means,
    )
  ]

  -- A create adds the ID to the named configuration's, if they do not hold it; it is an error where there is no
  -- such configuration, or the ID is there. It does not panic.
  pub associate-add :
      (name id : Str) (nic : Nic R)
      → seen (associate kind name id nic) ≡ add name id (associations nic)
  unfolding associate
  associate-add name id nic = elim (select-cases name nic) [
    | inl r ↦ ap seen (refused name nic _ r) ∙ ground (arith, r.absent)
    | inr s ↦ ap seen (chosen name nic _ s) ∙ associate-selected name id nic s _ refl
  ]

  -- A delete takes the ID out of the named configuration's of its kind, and keeps those of others; an error where
  -- there is no such configuration. It does not panic.
  pub dissociate-refines :
      (name id : Str) (nic : Nic R)
      → seen (dissociate kind name id nic) ≡ drop_id name id (associations nic)
  unfolding dissociate
  dissociate-refines name id nic = elim (select-cases name nic) [
    | inl r ↦ ap seen (refused name nic _ r) ∙ ground (arith, r.absent)
    | inr s ↦
        ap seen (chosen name nic _ s)
        ∙ put_targets-associations nic s.props s.configs name s.config s.p _ s.has_props
            s.has_configs s.at_name
        ∙ ground (arith, s.means, target_ids-without id (list_or_empty (kind.targets s.p)))
  ]
