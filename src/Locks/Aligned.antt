-- ===== src/Locks/Aligned.antt =====
-- The handlers that lock in the order network interface, security group, route table, virtual network,
-- subnet.
use terraform_provider_azure.Base.{
  ℕ, ◌≤◌, ◌<◌, ◌≡◌, refl, ◌⊎◌, none, some, List, [], ◌∷◌, arith, length, if◌then◌else◌, Str, str_eq,
  All, All-weaken,
}
use terraform_provider_azure.Url.{before}
use terraform_provider_azure.Locks.Handlers.{
  Key, network_security_group, subnet, virtual_network, route_table, network_interface, key_of,
  keys_of, names_to_lock, Handler, lock_groups,
}
use terraform_provider_azure.Locks.System.{System, Step, Reach, IsDone}
use terraform_provider_azure.Locks.Order.{AreRising}
use terraform_provider_azure.Locks.Progress.{AllRising, ops_left, rising-progress}

-- The place of a type of resource in the order.
type_rank : Str → ℕ
type_rank t =
    if str_eq t network_interface
    then 0
    else if str_eq t network_security_group
    then 1
    else if str_eq t route_table
    then 2
    else if str_eq t virtual_network
    then 3
    else if str_eq t subnet
    then 4
    else 5

unfoldable pub key_rank : Key → ℕ
unfolding type_rank
key_rank k = type_rank (before b'.' k)

rank_interface : (n : Str) → key_rank (key_of n network_interface) ≡ 0
unfolding key_rank key_of before str_eq
rank_interface n = refl

rank_group : (n : Str) → key_rank (key_of n network_security_group) ≡ 1
unfolding key_rank key_of before str_eq
rank_group n = refl

rank_table : (n : Str) → key_rank (key_of n route_table) ≡ 2
unfolding key_rank key_of before str_eq
rank_table n = refl

rank_network : (n : Str) → key_rank (key_of n virtual_network) ≡ 3
unfolding key_rank key_of before str_eq
rank_network n = refl

rank_subnet : (n : Str) → key_rank (key_of n subnet) ≡ 4
unfolding key_rank key_of before str_eq
rank_subnet n = refl

-- The handlers of which any number may run side by side. A subnet is created with neither a security group
-- nor a route table, and a virtual network with at most one security group.
abbrev pub IsAligned : Handler → Type 0
IsAligned (Handler.subnet_create vnet nsg table) = (nsg ≡ none) × (table ≡ none)
IsAligned (Handler.interface_change nic nsg subnets vnets) = ⊥
IsAligned (Handler.firewall_change name subnets vnets) = ⊥
IsAligned (Handler.network_create nsgs) = length (names_to_lock [] nsgs) ≤ 1
IsAligned (Handler.network_delete nsgs) = length (names_to_lock [] nsgs) ≤ 1
IsAligned h = Unit

few-IsRising :
    (names : List Str) (t : Str)
    → ((n : Str) → key_rank (key_of n t) < 6)
    → length names ≤ 1
    → AreRising key_rank 6 [] (keys_of names t ∷ [])
unfolding keys_of
few-IsRising [] t small h = (tt, tt)
few-IsRising (n ∷ []) t small h = ((tt, small n, tt), tt)
few-IsRising (n ∷ m ∷ ns) t small h = absurd (omega arith)

aligned-AreRising : (h : Handler) → IsAligned h → AreRising key_rank 6 [] (lock_groups h)
unfolding lock_groups keys_of
aligned-AreRising (Handler.subnet_create v none none) a = ground (arith, rank_network v)
aligned-AreRising (Handler.subnet_create v (some g) table) a = cc (a.0)
aligned-AreRising (Handler.subnet_create v none (some r)) a = cc (a.1)
aligned-AreRising (Handler.subnet_delete s v none none) a =
    ground (arith, rank_network v, rank_subnet s)
aligned-AreRising (Handler.subnet_delete s v (some g) none) a =
    ground (arith, rank_group g, rank_network v, rank_subnet s)
aligned-AreRising (Handler.subnet_delete s v none (some r)) a =
    ground (arith, rank_table r, rank_network v, rank_subnet s)
aligned-AreRising (Handler.subnet_delete s v (some g) (some r)) a =
    ground (arith, rank_group g, rank_table r, rank_network v, rank_subnet s)
aligned-AreRising (Handler.nsg_association_create g v) a =
    ground (arith, rank_group g, rank_network v)
aligned-AreRising (Handler.nsg_association_delete g v s) a =
    ground (arith, rank_group g, rank_network v, rank_subnet s)
aligned-AreRising (Handler.route_table_association_create r v) a =
    ground (arith, rank_table r, rank_network v)
aligned-AreRising (Handler.route_table_association_delete r v s) a =
    ground (arith, rank_table r, rank_network v, rank_subnet s)
aligned-AreRising (Handler.route_change r) a = ground (arith, rank_table r)
aligned-AreRising (Handler.security_group_change g) a = ground (arith, rank_group g)
aligned-AreRising (Handler.interface_association n) a = ground (arith, rank_interface n)
aligned-AreRising (Handler.interface_change nic nsg subnets vnets) a = absurd a
aligned-AreRising (Handler.firewall_change name subnets vnets) a = absurd a
aligned-AreRising (Handler.network_create nsgs) a =
    few-IsRising (names_to_lock [] nsgs) network_security_group (λ n. omega (arith, rank_group n)) a
aligned-AreRising (Handler.network_delete nsgs) a =
    few-IsRising (names_to_lock [] nsgs) virtual_network (λ n. omega (arith, rank_network n)) a

AllAligned-AllRising :
    (hs : List (Handler × ℕ)) → All (λ h. IsAligned h.0) hs → AllRising key_rank 6 hs
AllAligned-AllRising hs =
    All-weaken (λ h. IsAligned h.0) (λ h. AreRising key_rank 6 [] (lock_groups h.0)) hs
      (λ h a. aligned-AreRising h.0 a)

-- Any number of handlers side by side do not deadlock if they are: deletes of subnets, creates and deletes of
-- the associations of a subnet, changes of routes, of security rules and groups and of what is associated with
-- a network interface, creates of subnets with neither a security group nor a route table, and creates and
-- deletes of virtual networks with at most one security group. They have all returned, or one has a step;
-- and every step leaves fewer operations.
pub aligned-progress :
    (hs : List (Handler × ℕ)) (s : System)
    → All (λ h. IsAligned h.0) hs
    → Reach hs s
    → (IsDone s ⊎ ((u : System) × Step s u)) × ((u : System) → Step s u → ops_left u < ops_left s)
aligned-progress hs s a = rising-progress key_rank 6 hs s (AllAligned-AllRising hs a)
