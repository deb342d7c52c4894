-- ===== src/NetworkInterface/Whole.antt =====
-- What a create does to the whole network interface: to the targets of each kind, in each configuration.
use terraform_provider_azure.Base.{
  ◌≡◌, refl, Option, none, some, List, [], ◌∷◌, ◌++◌, arith, inl, inr, ap, ◌∙◌, ◌>>=◌, Bool-cases,
  Str, if◌then◌else◌, str_eq, str_eq_iff, Outcome, ok, err, panic,
}
use mathlib.Core.Path.{fun_ext}
use terraform_provider_azure.Helpers.NetworkInterface.{
  find_ip_configuration, find-update_ip_configuration,
}
use terraform_provider_azure.NetworkInterface.Model.{
  Target, IpProperties, Configuration, NicProperties, Nic, NicError, Kind, nat_rule_kind,
  backend_address_pool_kind, application_gateway_kind, list_or_empty, unless_exists, put_targets,
  associate,
}
use terraform_provider_azure.NetworkInterface.Targets.{
  Associations, mem, update, add, target_ids, unless_exists_old, with_id, unless_exists_new,
  find_named-name,
}
use terraform_provider_azure.NetworkInterface.Refinement.{
  targets_in, associations, changed, rebuilt, put_targets-rebuilt, rebuilt-associations, IsSelected,
  select-cases, refused, chosen, fresh, target_ids-fresh,
}

-- The three kinds of targets.
pub data TargetList : Type 0 where
  nat_rules backend_pools gateway_pools : TargetList

abbrev pub kind_of : {R : Type 0} → TargetList → Kind R
kind_of nat_rules = nat_rule_kind
kind_of backend_pools = backend_address_pool_kind
kind_of gateway_pools = application_gateway_kind

-- The network interface's ID, and the IDs that each configuration is associated with, of each kind.
abbrev pub Meaning : Type 0
Meaning = Option Str × (TargetList → Associations)

abbrev pub replaced :
    TargetList → Associations → (TargetList → Associations) → TargetList → Associations
replaced nat_rules m all nat_rules = m
replaced backend_pools m all backend_pools = m
replaced gateway_pools m all gateway_pools = m
replaced l m all k = all k

-- The ID is added to those of one kind, and the rest is as before.
abbrev pub add_to : TargetList → Str → Str → Meaning → Outcome (Unit {0}) Meaning
add_to l name id (own, all) = elim (add name id (all l)) [
  | ok m ↦ ok (own, replaced l m all)
  | err e ↦ err e
  | panic ↦ panic
]

module _ {R : Type 0} where
  abbrev pub meaning : Nic R → Meaning
  meaning nic = (nic.id, λ k. associations (kind_of k) nic)

  abbrev pub meant : Outcome NicError (Nic R) → Outcome (Unit {0}) Meaning
  meant (ok nic) = ok (meaning nic)
  meant (err e) = err tt
  meant panic = panic

  -- A kind whose targets another's change keeps.
  rebuilt-keeps :
      (kind other : Kind R) (nic : Nic R) (props : NicProperties R)
      (configs out : List (Configuration R)) (name : Str) (c : Configuration R) (p : IpProperties R)
      (ts : List (Target R)) (at_ : Str)
      → other.targets (kind.set_targets ts p) ≡ other.targets p
      → nic.properties ≡ some props
      → props.ip_configurations ≡ some configs
      → find_ip_configuration (some configs) name ≡ some c
      → c.properties ≡ some p
      → find_ip_configuration (some out) at_ ≡ (
          if str_eq name at_
          then elim (find_ip_configuration (some configs) at_) [
            | none ↦ none
            | some v ↦ some (changed kind c p ts)
          ]
          else find_ip_configuration (some configs) at_)
      → associations other (rebuilt kind nic props out) at_ ≡ associations other nic at_
  unfolding associations targets_in
  rebuilt-keeps kind other nic props configs out name c p ts at_ keeps has_props has_configs at_name
        has_p finds =
      ground (arith, str_eq_iff name at_)

  module _ (l : TargetList) (nic : Nic R) (name : Str) (s : IsSelected (kind_of l) name nic)
      (ts : List (Target R)) (out : List (Configuration R))
      (finds : (at_ : Str)
        → find_ip_configuration (some out) at_ ≡ (
            if str_eq name at_
            then elim (find_ip_configuration (some s.configs) at_) [
              | none ↦ none
              | some v ↦ some (changed (kind_of l) s.config s.p ts)
            ]
            else find_ip_configuration (some s.configs) at_)) where
    own_list :
        associations (kind_of l) (rebuilt (kind_of l) nic s.props out)
        ≡ update (associations (kind_of l) nic) name (target_ids ts)
    own_list = fun_ext λ at_.
        rebuilt-associations (kind_of l) nic s.props s.configs out name s.config s.p ts at_
          s.has_props s.has_configs s.at_name (finds at_)

    other_list :
        (k : TargetList)
        → (kind_of {R = R} k).targets ((kind_of l).set_targets ts s.p) ≡ (kind_of k).targets s.p
        → associations (kind_of k) (rebuilt (kind_of l) nic s.props out)
          ≡ associations (kind_of k) nic
    other_list k keeps = fun_ext λ at_.
        rebuilt-keeps (kind_of l) (kind_of k) nic s.props s.configs out name s.config s.p ts at_
          keeps s.has_props s.has_configs s.at_name s.has_p (finds at_)

  rebuilt-replaced :
      (l k : TargetList) (nic : Nic R) (name : Str) (s : IsSelected (kind_of l) name nic)
      (ts : List (Target R)) (out : List (Configuration R))
      → ((at_ : Str)
          → find_ip_configuration (some out) at_ ≡ (
              if str_eq name at_
              then elim (find_ip_configuration (some s.configs) at_) [
                | none ↦ none
                | some v ↦ some (changed (kind_of l) s.config s.p ts)
              ]
              else find_ip_configuration (some s.configs) at_))
      → associations (kind_of k) (rebuilt (kind_of l) nic s.props out)
        ≡ replaced l
            (update (associations (kind_of l) nic) name (target_ids ts))
            (λ j. associations (kind_of j) nic)
            k
  rebuilt-replaced nat_rules nat_rules nic name s ts out f = own_list nat_rules nic name s ts out f
  rebuilt-replaced nat_rules backend_pools nic name s ts out f =
      other_list nat_rules nic name s ts out f backend_pools refl
  rebuilt-replaced nat_rules gateway_pools nic name s ts out f =
      other_list nat_rules nic name s ts out f gateway_pools refl
  rebuilt-replaced backend_pools nat_rules nic name s ts out f =
      other_list backend_pools nic name s ts out f nat_rules refl
  rebuilt-replaced backend_pools backend_pools nic name s ts out f =
      own_list backend_pools nic name s ts out f
  rebuilt-replaced backend_pools gateway_pools nic name s ts out f =
      other_list backend_pools nic name s ts out f gateway_pools refl
  rebuilt-replaced gateway_pools nat_rules nic name s ts out f =
      other_list gateway_pools nic name s ts out f nat_rules refl
  rebuilt-replaced gateway_pools backend_pools nic name s ts out f =
      other_list gateway_pools nic name s ts out f backend_pools refl
  rebuilt-replaced gateway_pools gateway_pools nic name s ts out f =
      own_list gateway_pools nic name s ts out f

  put_targets-meaning :
      (l : TargetList) (nic : Nic R) (name : Str) (s : IsSelected (kind_of l) name nic)
      (ts : List (Target R))
      → meant (put_targets (kind_of l) nic s.configs s.config s.p ts)
        ≡ ok (
          nic.id,
          replaced l
              (update (associations (kind_of l) nic) name (target_ids ts))
              (λ j. associations (kind_of j) nic),
        )
  unfolding find_ip_configuration
  put_targets-meaning l nic name s ts =
      let (out, runs, finds) =
        find-update_ip_configuration (changed (kind_of l) s.config s.p ts) name s.configs
          (find_named-name s.configs name s.config s.at_name) in
      ap meant
        (put_targets-rebuilt (kind_of l) nic s.props s.configs out s.config s.p ts s.has_props runs)
      ∙ ap (λ all. ok (nic.id, all)) (fun_ext λ k. rebuilt-replaced l k nic name s ts out finds)

  associate-selected :
      (l : TargetList) (name id : Str) (nic : Nic R) (s : IsSelected (kind_of l) name nic)
      (ts : List (Target R))
      → ts ≡ list_or_empty ((kind_of l).targets s.p)
      → meant (
          unless_exists id ts >>= λ kept.
          put_targets (kind_of l) nic s.configs s.config s.p (kept ++ fresh (kind_of l) id ∷ []))
        ≡ add_to l name id (meaning nic)
  associate-selected l name id nic s ts same = elim (Bool-cases (mem id (target_ids ts))) [
    | inl old ↦ ground (arith, unless_exists_old id ts, s.means)
    | inr new ↦ ground (
      arith,
      unless_exists_new id ts new,
      put_targets-meaning l nic name s (with_id ts ++ fresh (kind_of l) id ∷ []),
      target_ids-fresh (kind_of l) id ts,
      s.means,
    )
  ]

  -- A create for one of the three kinds of targets adds the ID to the IDs of its kind that the named
  -- configuration has, if they do not hold it. The IDs of the other kinds and of the other configurations, and
  -- that of the network interface, are as before; targets that have no ID are not counted. It is an error where
  -- there is no such configuration with properties, or the ID is there. It does not panic.
  pub associate-refines :
      (l : TargetList) (name id : Str) (nic : Nic R)
      → meant (associate (kind_of l) name id nic) ≡ add_to l name id (meaning nic)
  unfolding associate
  associate-refines l name id nic = elim (select-cases (kind_of l) name nic) [
    | inl r ↦ ap meant (refused (kind_of l) name nic _ r) ∙ ground (arith, r.absent)
    | inr s ↦ ap meant (chosen (kind_of l) name nic _ s) ∙ associate-selected l name id nic s _ refl
  ]
