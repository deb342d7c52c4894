-- ===== src/Lib.antt =====
-- The provider's own logic: Azure Resource Manager IDs, the resources inside a load balancer, the upload of
-- storage blobs, the authentication, subnets, network interfaces and their associations, data disks, the
-- components of logic apps, the policies and the secrets of key vaults, and helpers that many resources share.
--
-- The parts and their files:
--   Base (Base.antt, Base/*): Boolean tests and lists over native numbers, byte strings and maps, and
--     `Outcome`, the result of a Go function: a value, an error, or a panic (a nil dereference or an index
--     out of range).
--   Text, Url: what the code uses of Go's `strings` and `net/url`. `ToLower` is modelled on ASCII bytes; the
--     parsing of a URL's authority is a parameter.
--   ResourceId: azurerm/helpers/azure/resourceid.go, azurerm/resourceid.go, and the functions that take a
--     part of an ID. `ParseAzureResourceID` is `parse_azure_resource_id`, `composeAzureResourceID` is
--     `compose_azure_resource_id`; the loop over the segments is `collect`.
--   LoadBalancer: azurerm/loadbalancer.go and azurerm/resource_arm_loadbalancer_{rule,nat_rule,nat_pool,
--     probe,backend_address_pool}.go. The handlers of the five resources are one code but for the list, the
--     expansion and the flattening: LoadBalancer/Child.antt has the handlers over a `Kind`, and Rule, NatRule,
--     NatPool, Probe and BackendPool give the five kinds. Import has the import of such a resource, with
--     its regular expression. A handler is an action on the cloud, the resource's data and the events that
--     others see: `lock`, `written`, `unlock`. The SDK's client is the
--     record `Api` of LoadBalancer/Client.antt, and its calls may return anything.
--   StorageBlob: azurerm/resource_arm_storage_blob.go. Pages and Blocks are the two splits of a file;
--     Worker has the upload workers as steps on the channel, the items in hand, the errors and the counter
--     of the wait group, in any order; reading a section and sending it are parameters.
--     Id has the IDs of blobs (`parse_storage_blob_id`, over Url), Account the resource group of an account, the
--     validators, and the handlers but the create, Upload the uploads and the create, as relations over the
--     states of the workers.
--   Authentication: azurerm/helpers/authentication. Config has the checks, Tokens the search for a token and
--     the loading from the Azure CLI, whose files, token conversion and clock are parameters.
--   Locks: azurerm/locks.go, and which mutexes the handlers of networks lock, in which order: Handlers has the
--     keys (`key_of`, `keys_of`) and each handler's groups of keys (`lock_groups`), of which a handler that
--     returns early takes the first few (`handler_program`); System runs handlers side by side as threads
--     over the mutexes.
--   Handler: what handlers are made of, for any type of resource: `Api` is the SDK's client, whose calls may
--     return anything; `Store` is a client whose calls succeed and that holds what is put. Handler/Stored and
--     Handler/Locking have what handlers do to such a cloud and to the mutexes. Handler/Interleaving
--     runs handlers that lock, get, change and put side by side, a call of the SDK as one step, which may fail
--     with or without its effect;
--     Handler/Serial compares them with handlers one after the other.
--   NetworkInterface: azurerm/resource_arm_network_interface_{nat_rule,backend_address_pool,
--     application_gateway}_association.go, over Handler and Helpers. Model has what the handlers do to a network
--     interface (`associate`, `dissociate`, `is_associated`), Reference the association's ID, Association the
--     handlers, which Resources names for each file. The code copies the configuration and shares its
--     properties; since the configuration is then put back by its name, the model replaces both.
--   Subnet: azurerm/resource_arm_subnet.go and azurerm/resource_arm_subnet_{network_security_group,
--     route_table}_association.go, over Handler. Association has the handlers of the associations over a `Kind`,
--     Resource those of the subnet. The SDK's calls by virtual network and subnet take the two names as one
--     path (`subnet_path`). Handler/Locking relates the events of a handler, its locks, its write and its
--     unlocks, to the programs of Locks.
--   DataDisk: azurerm/resource_arm_virtual_machine_data_disk_attachment.go, over Handler. DataDisk.antt has the
--     loops over the disks of a virtual machine, Attachment the handlers.
--   LogicApp: azurerm/logic_apps.go and azurerm/resource_arm_logic_app_{action_http,action_custom,
--     trigger_custom,trigger_recurrence,trigger_http_request}.go, over Handler. Model has JSON values, workflows and
--     the change of one component; Component the three handlers of logic_apps.go; Resource the handlers of
--     a resource over a `ComponentKind`, Http and Kinds the five kinds, and Concurrent updates of
--     one workflow side by side. Reading and writing JSON texts, and
--     what Terraform stores of a map, are parameters; a Go value and the JSON that it is sent as are one. A
--     JSON text `null`, which Go reads as a nil map, is left out.
--   KeyVault: Policies (azurerm/helpers/azure/key_vault_access_policy.go), Search and Handlers
--     (azurerm/resource_arm_key_vault_access_policy.go, over Handler), and Encryption
--     (azurerm/encryption_settings.go). UUIDs are the record `Uuids`; the call that changes the policies of a
--     vault is a parameter. ChildId has the IDs of keys, secrets and certificates (azurerm/key_vault_child.go,
--     over Url and the segments of ResourceId), Secrets the handlers of a secret and its data source
--     (azurerm/resource_arm_key_vault_secret.go, azurerm/data_source_key_vault_secret.go), Lifecycle what
--     they do to a vault that keeps each version (`Versions`).
--   Helpers: Rights (azurerm/helpers/azure/servicebus.go, eventhub.go), Tags (azurerm/tags.go) and
--     NetworkInterface (azurerm/helpers/azure/network_interface.go).
--
-- Numbers: offsets and sizes of files are ℕ; the splits add no more than a page or a block to a file's size,
-- so an `int64` does not overflow for a file below 2^63 - 2^22 bytes. The ports and times of a load balancer
-- and the `lun` of a data disk keep the conversion to `int32` as `% 2 ^ 32`, and the way back with the sign.
-- Fuel: `block_loop` runs on one pass for each block and one more; trimming on one for each byte. The
-- loop over the pages is a recursion on the number of pages, of which the rounded size is a multiple.
-- Maps are association lists. Go's order of iteration shows only where errors are appended (tags), and the
-- results there do not depend on it.
--
-- Not modelled: schemas, provider.go and the wiring of the clients, which are declarations; the SDK, Terraform's
-- libraries and the other code under vendor; log lines and the texts of errors; the remaining resources and
-- data sources; regular expressions but that of the import; `EqualFold` beyond ASCII.
pub mod Base
pub mod Text
pub mod Url
pub mod ResourceId
pub mod LoadBalancer
pub mod StorageBlob
pub mod Subnet
pub mod DataDisk
pub mod Authentication
pub mod Helpers
pub mod Locks
pub mod Handler
pub mod NetworkInterface
pub mod LogicApp
pub mod KeyVault
