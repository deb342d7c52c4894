-- ===== src/NetworkInterface/Reference.antt =====
-- The ID of an association, which its handlers alone write and read.
use terraform_provider_azure.Base.{
  Option, List, [], ◌∷◌, ◌++◌, Str, bytes, lookup, get_or_empty, Outcome, ok, err, ◌>>=◌, wrap,
}
use terraform_provider_azure.Text.{split}
use terraform_provider_azure.ResourceId.{parse_azure_resource_id}
use terraform_provider_azure.NetworkInterface.Model.{NicError, bad_format, bad_id}

-- The ID that a create sets.
unfoldable pub association_id : Str → Str → Str → Str
association_id nic_id name target = nic_id ++ bytes "/ipConfigurations/" ++ name ++ b'|' ∷ target

-- What an ID says: the resource group, the names of the network interface and of the configuration, and the
-- ID of the target.
pub record Reference : Type 0 where
  pub group : Str
  pub nic : Str
  pub configuration : Str
  pub target : Str

-- `strings.Split(d.Id(), "|")`, with exactly two parts.
unfoldable pub halves : List Str → Outcome NicError (Str × Str)
halves (a ∷ b ∷ []) = ok (a, b)
halves _ = err bad_format

-- The start of a read or a delete.
unfoldable pub reference_of : (Str → Option Str) → Str → Outcome NicError Reference
unfolding halves
reference_of parse_authority id = do
  parts ← halves (split b'|' id)
  nic ← wrap bad_id (parse_azure_resource_id parse_authority parts.0)
  ok (record {
    group = nic.group;
    nic = get_or_empty (lookup (bytes "networkInterfaces") nic.path);
    configuration = get_or_empty (lookup (bytes "ipConfigurations") nic.path);
    target = parts.1;
  })
