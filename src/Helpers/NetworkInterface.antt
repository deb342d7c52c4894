-- ===== src/Helpers/NetworkInterface.antt =====
-- The IP configurations of a network interface: azurerm/helpers/azure/network_interface.go.
use terraform_provider_azure.Base.{
  ◌≡◌, refl, not, Option, none, some, List, [], ◌∷◌, arith, if◌then◌else◌, Option-cases, inl, inr,
  Str, str_eq, str_eq_iff, Outcome, ok, err, panic,
}

-- `InterfaceIPConfiguration`; the properties are only passed on.
pub record IpConfiguration (P : Type 0) : Type 0 where
  pub name : Option Str
  pub properties : P

module _ {P : Type 0} where
  unfoldable pub find_named : List (IpConfiguration P) → Str → Option (IpConfiguration P)
  find_named [] name = none
  find_named (v ∷ vs) name = elim v.name [
    | none ↦ find_named vs name
    | some n ↦ if str_eq n name then some v else find_named vs name
  ]

  -- `FindNetworkInterfaceIPConfiguration`
  unfoldable pub find_ip_configuration :
      Option (List (IpConfiguration P)) → Str → Option (IpConfiguration P)
  unfolding find_named
  find_ip_configuration none name = none
  find_ip_configuration (some vs) name = find_named vs name

  -- The loop of the update; the name of the new configuration is dereferenced at the first old one that
  -- has a name.
  unfoldable pub update_from :
      IpConfiguration P → List (IpConfiguration P) → Outcome (Unit {0}) (List (IpConfiguration P))
  update_from config [] = ok []
  update_from config (v ∷ vs) =
      let rest = update_from config vs in
      elim v.name [
        | none ↦ rest
        | some n ↦ elim config.name [
          | none ↦ panic
          | some own ↦ elim rest [
            | ok out ↦ ok ((if not (str_eq n own) then v else config) ∷ out)
            | err e ↦ err e
            | panic ↦ panic
          ]
        ]
      ]

  -- `UpdateNetworkInterfaceIPConfiguration`
  unfoldable pub update_ip_configuration :
      IpConfiguration P
      → Option (List (IpConfiguration P))
      → Outcome (Unit {0}) (List (IpConfiguration P))
  unfolding update_from
  update_ip_configuration config none = ok []
  update_ip_configuration config (some vs) = update_from config vs

  update_lem :
      (config : IpConfiguration P) (own : Str) (vs : List (IpConfiguration P))
      → config.name ≡ some own
      → (out : List (IpConfiguration P)) × (update_from config vs ≡ ok out)
        × ((name : Str)
            → find_named out name ≡ (
                if str_eq own name
                then elim (find_named vs name) [ none ↦ none | some v ↦ some config ]
                else find_named vs name))
  unfolding find_named update_from
  update_lem config own [] named = ([], refl, λ name. ground arith)
  update_lem config own (v ∷ vs) named =
      let (out, runs, finds) = update_lem config own vs named in
      elim (Option-cases v.name) [
        | inl nameless ↦ (out, ground (arith, named), λ name. ground (arith, finds name))
        | inr (n, named_v) ↦ (
          (if not (str_eq n own) then v else config) ∷ out,
          ground (arith, named),
          λ name.
              ground (
                arith,
                finds name,
                named,
                str_eq_iff n own,
                str_eq_iff n name,
                str_eq_iff own name,
              ),
        )
      ]

  -- An update with a configuration that has a name returns, and then every name is found as before, but
  -- the name of the configuration, where it was found before: there the new configuration is found.
  pub find-update_ip_configuration :
      (config : IpConfiguration P) (own : Str) (vs : List (IpConfiguration P))
      → config.name ≡ some own
      → (out : List (IpConfiguration P)) × (update_ip_configuration config (some vs) ≡ ok out)
        × ((name : Str)
            → find_ip_configuration (some out) name ≡ (
                if str_eq own name
                then elim (find_ip_configuration (some vs) name) [
                  | none ↦ none
                  | some v ↦ some config
                ]
                else find_ip_configuration (some vs) name))
  unfolding update_ip_configuration find_ip_configuration
  find-update_ip_configuration config own vs named = update_lem config own vs named
