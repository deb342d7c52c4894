-- ===== src/Locks/Deadlock.antt =====
-- A create and a delete of subnets that wait for each other.
use terraform_provider_azure.Base.{
  ℕ, arith, ◌≡◌, refl, true, none, some, List, [], ◌∷◌, ◌++◌, ap, sym, ◌∙◌, Str, str_eq,
  str_eq_self, All, All-middle,
}
use mathlib.Core.Path.{subst}
use terraform_provider_azure.Locks.Handlers.{
  Key, Op, acquire, release, work, network_security_group, virtual_network, subnet, key_of, keys_of,
  program, Handler, subnet_create, subnet_delete, lock_groups, handler_program,
}
use terraform_provider_azure.Locks.System.{
  Thread, holds, System, is_taken, Step, acquires, releases, works, started, Reach, at_start,
  then_step, IsDone,
}

-- The next operation of the thread is a lock of a key that is taken.
abbrev IsWaiting : System → Thread → Type 0
IsWaiting s t = (k : Key) × (rest : List Op) × (t.todo ≡ acquire k ∷ rest) × (is_taken k s ≡ true)

IsWaiting-at :
    (s before after : System) (t : Thread)
    → s ≡ before ++ t ∷ after
    → All (IsWaiting s) s
    → IsWaiting s t
IsWaiting-at s before after t at_ h =
    (All-middle (IsWaiting s) before after t (subst (All (IsWaiting s)) at_ h)).0

All-IsWaiting-stuck : (s u : System) → All (IsWaiting s) s → Step s u → ⊥
All-IsWaiting-stuck s _ h (acquires before after t k rest at_ next free) =
    let (j, more, own, taken) = IsWaiting-at s before after t at_ h in
    let same : acquire k ∷ rest ≡ acquire j ∷ more = sym next ∙ own in
    let same_key : k ≡ j = cc same in cc (ap (λ i. is_taken i s) same_key, taken, free)
All-IsWaiting-stuck s _ h (releases before after t k rest at_ next) =
    let (j, more, own, taken) = IsWaiting-at s before after t at_ h in cc (sym next ∙ own)
All-IsWaiting-stuck s _ h (works before after t rest at_ next) =
    let (j, more, own, taken) = IsWaiting-at s before after t at_ h in cc (sym next ∙ own)

module _ (vnet group name : Str) where
  network_key : Key
  unfolding key_of
  network_key = key_of vnet virtual_network

  group_key : Key
  unfolding key_of
  group_key = key_of group network_security_group

  abbrev pub creating_and_deleting : List (Handler × ℕ)
  creating_and_deleting =
      (subnet_create vnet (some group) none, 2)
      ∷ (subnet_delete name vnet (some group) none, 3)
      ∷ []

  -- The create holds the virtual network, and the delete the security group.
  crossed : System
  unfolding key_of network_key group_key
  crossed =
      record {
        held = network_key ∷ [];
        todo = acquire group_key ∷ work ∷ release group_key ∷ release network_key ∷ [];
      }
      ∷ record {
        held = group_key ∷ [];
        todo =
            acquire network_key
            ∷ acquire (key_of name subnet)
            ∷ work
            ∷ release (key_of name subnet)
            ∷ release network_key
            ∷ release group_key
            ∷ [];
      }
      ∷ []

  crossed-Reach : Reach creating_and_deleting crossed
  unfolding crossed network_key group_key key_of started handler_program program lock_groups keys_of
      is_taken holds str_eq
  crossed-Reach =
      then_step _ _ (then_step _ _ at_start (acquires [] _ _ _ _ refl refl refl))
        (acquires (_ ∷ []) [] _ _ _ refl refl refl)

  crossed-IsWaiting : All (IsWaiting crossed) crossed
  unfolding crossed network_key group_key key_of is_taken holds
  crossed-IsWaiting = (
    (group_key, _, refl, ground (arith, str_eq_self group_key)),
    ((network_key, _, refl, ground (arith, str_eq_self network_key)), tt),
  )

  -- A create of a subnet with a security group and a delete of one with the same security group in the same
  -- virtual network can reach a state in which neither has returned and neither has a step.
  pub subnets-deadlock :
      (s : System) × Reach creating_and_deleting s × (IsDone s → ⊥) × ((u : System) → Step s u → ⊥)
  unfolding crossed
  subnets-deadlock = (
    crossed,
    crossed-Reach,
    (λ done. cc (done.0)),
    λ u. All-IsWaiting-stuck crossed u crossed-IsWaiting,
  )
