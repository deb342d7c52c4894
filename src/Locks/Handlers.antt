-- ===== src/Locks/Handlers.antt =====
-- Which mutexes a handler locks, and in which order: azurerm/locks.go, and the handlers of subnets, their
-- associations, network interfaces, firewalls, routes, security rules and virtual networks.
use terraform_provider_azure.Base.{
  ℕ, Bool, false, not, Option, none, some, List, [], ◌∷◌, ◌++◌, map, take, if◌then◌else◌, ◌||◌, Str,
  bytes, str_eq,
}

abbrev pub Key : Type 0
Key = Str

abbrev pub network_security_group : Str
network_security_group = bytes "azurerm_network_security_group"

abbrev pub subnet : Str
subnet = bytes "azurerm_subnet"

abbrev pub virtual_network : Str
virtual_network = bytes "azurerm_virtual_network"

abbrev pub route_table : Str
route_table = bytes "azurerm_route_table"

abbrev pub network_interface : Str
network_interface = bytes "azurerm_network_interface"

abbrev pub firewall : Str
firewall = bytes "azurerm_firewall"

-- The key of `azureRMLockByName(name, resourceType)`, and of the unlock.
unfoldable pub key_of : Str → Str → Key
key_of name resource_type = resource_type ++ b'.' ∷ name

-- The keys of `azureRMLockMultipleByName(&names, resourceType)`, in the order of the names.
unfoldable pub keys_of : List Str → Str → List Key
unfolding key_of
keys_of names resource_type = map (λ n. key_of n resource_type) names

-- `sliceContainsValue`
unfoldable pub slice_contains_value : List Str → Str → Bool
slice_contains_value [] value = false
slice_contains_value (x ∷ xs) value = str_eq x value || slice_contains_value xs value

-- The loop that collects the names to lock, each once.
unfoldable pub names_to_lock : List Str → List Str → List Str
unfolding slice_contains_value
names_to_lock acc [] = acc
names_to_lock acc (n ∷ ns) =
    names_to_lock (if not (slice_contains_value acc n) then acc ++ n ∷ [] else acc) ns

pub data Op : Type 0 where
  acquire release : Key → Op
  work : Op

-- A handler locks group after group, each with a deferred unlock of the group: the last group is unlocked
-- first, and the keys of a group in the order in which they were locked.
unfoldable pub program : List (List Key) → List Op
program [] = work ∷ []
program (g ∷ gs) = map acquire g ++ (program gs ++ map release g)

-- The handlers, with the names that they lock.
pub data Handler : Type 0 where
  subnet_create : Str → Option Str → Option Str → Handler
  subnet_delete : Str → Str → Option Str → Option Str → Handler
  nsg_association_create : Str → Str → Handler
  nsg_association_delete : Str → Str → Str → Handler
  route_table_association_create : Str → Str → Handler
  route_table_association_delete : Str → Str → Str → Handler
  route_change security_group_change interface_association : Str → Handler
  interface_change : Str → Option Str → List Str → List Str → Handler
  firewall_change : Str → List Str → List Str → Handler
  network_create network_delete : List Str → Handler

-- The lock of a name that may not be configured.
abbrev pub optional : Str → Option Str → List (List Key)
optional resource_type none = []
optional resource_type (some n) = keys_of (n ∷ []) resource_type ∷ []

abbrev pub one : Str → Str → List Key
one name resource_type = keys_of (name ∷ []) resource_type

abbrev pub subnet_create_locks : Str → Option Str → Option Str → List (List Key)
subnet_create_locks vnet nsg table =
    one vnet virtual_network ∷ (optional network_security_group nsg ++ optional route_table table)

abbrev pub subnet_delete_locks : Str → Str → Option Str → Option Str → List (List Key)
subnet_delete_locks name vnet nsg table =
    optional network_security_group nsg
    ++ (optional route_table table ++ one vnet virtual_network ∷ one name subnet ∷ [])

-- The associations of a subnet with a security group, or with a route table.
abbrev pub association_create_locks : Str → Str → Str → List (List Key)
association_create_locks resource_type other vnet =
    one other resource_type ∷ one vnet virtual_network ∷ []

abbrev pub association_delete_locks : Str → Str → Str → Str → List (List Key)
association_delete_locks resource_type other vnet name =
    one other resource_type ∷ one vnet virtual_network ∷ one name subnet ∷ []

abbrev pub interface_locks : Str → Option Str → List Str → List Str → List (List Key)
interface_locks nic nsg subnets vnets =
    one nic network_interface
    ∷ (optional network_security_group nsg
        ++ keys_of (names_to_lock [] subnets) subnet
          ∷ keys_of (names_to_lock [] vnets) virtual_network
          ∷ [])

abbrev pub firewall_locks : Str → List Str → List Str → List (List Key)
firewall_locks name subnets vnets =
    one name firewall
    ∷ keys_of (names_to_lock [] subnets) subnet
    ∷ keys_of (names_to_lock [] vnets) virtual_network
    ∷ []

abbrev pub network_create_locks : List Str → List (List Key)
network_create_locks nsgs = keys_of (names_to_lock [] nsgs) network_security_group ∷ []

-- A delete locks the names of the security groups as names of virtual networks.
abbrev pub network_delete_locks : List Str → List (List Key)
network_delete_locks nsgs = keys_of (names_to_lock [] nsgs) virtual_network ∷ []

unfoldable pub lock_groups : Handler → List (List Key)
unfolding keys_of names_to_lock
lock_groups (subnet_create vnet nsg table) = subnet_create_locks vnet nsg table
lock_groups (subnet_delete name vnet nsg table) = subnet_delete_locks name vnet nsg table
lock_groups (nsg_association_create nsg vnet) =
    association_create_locks network_security_group nsg vnet
lock_groups (nsg_association_delete nsg vnet name) =
    association_delete_locks network_security_group nsg vnet name
lock_groups (route_table_association_create table vnet) =
    association_create_locks route_table table vnet
lock_groups (route_table_association_delete table vnet name) =
    association_delete_locks route_table table vnet name
lock_groups (route_change table) = one table route_table ∷ []
lock_groups (security_group_change nsg) = one nsg network_security_group ∷ []
lock_groups (interface_association nic) = one nic network_interface ∷ []
lock_groups (interface_change nic nsg subnets vnets) = interface_locks nic nsg subnets vnets
lock_groups (firewall_change name subnets vnets) = firewall_locks name subnets vnets
lock_groups (network_create nsgs) = network_create_locks nsgs
lock_groups (network_delete nsgs) = network_delete_locks nsgs

-- A handler that returns behind its first `n` groups, by an error or at its end.
unfoldable pub handler_program : Handler → ℕ → List Op
unfolding lock_groups program
handler_program h n = program (take n (lock_groups h))
