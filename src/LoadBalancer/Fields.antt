-- ===== src/LoadBalancer/Fields.antt =====
-- What the expansions and the flattenings of the resources share.
use terraform_provider_azure.Base.{
  ℕ, Bool, false, Option, none, some, [], if◌then◌else◌, Str, str_eq, get_or_empty, Outcome, ok,
  err,
}
use terraform_provider_azure.LoadBalancer.Model.{
  LoadBalancer, SubResource, of_int32, find_frontend_ip_configuration,
}
use terraform_provider_azure.LoadBalancer.Client.{LbError, no_frontend}

-- The front end that the configuration names, if it names one.
unfoldable pub front_end : Str → LoadBalancer → Outcome LbError (Option SubResource)
front_end name lb =
    if str_eq name [] then ok none else elim (find_frontend_ip_configuration (some lb) name) [
      | none ↦ err no_frontend
      | some (item, _) ↦ ok (some (record { id = item.id }))
    ]

-- `d.Set` of a pointer: the zero value for nil.
abbrev pub number : Option ℕ → ℕ
number none = 0
number (some n) = of_int32 n

abbrev pub flag : Option Bool → Bool
flag none = false
flag (some b) = b

-- A reference that is set only where it is not nil.
abbrev pub text_or : Option SubResource → Str → Str
text_or none old = old
text_or (some r) old = get_or_empty r.id
