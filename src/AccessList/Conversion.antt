-- ===== src/AccessList/Conversion.antt =====
-- FromInternal, toAtlas and fromAtlas of internal/translation/ipaccesslist/conversion.go. The SDK's
-- entry has optional fields, of which the getters give the empty text.
use mongodb_atlas_kubernetes.Base.{
  ℕ, String, not, Option, none, some, List, [], ◌∷◌, if◌then◌else◌, insert, is_empty_text,
  has_suffix, trim_right,
}
use mongodb_atlas_kubernetes.AccessList.Entries.{IpAccessEntry, IpAccessEntries, entry_id}

-- admin.NetworkPermissionEntry
pub record PermissionEntry : Type 0 where
  pub permitted_group : Option String
  pub permitted_cidr : Option String
  pub expires : Option ℕ
  pub note : Option String

abbrev pub unless_empty : String → Option String
unless_empty t = if not (is_empty_text t) then some t else none

abbrev pub or_empty : Option String → String
or_empty none = ""
or_empty (some t) = t

unfoldable pub to_permission : IpAccessEntry → PermissionEntry
to_permission e = record {
  permitted_group = unless_empty e.aws_security_group;
  permitted_cidr = unless_empty e.cidr;
  expires = e.delete_after_date;
  note = unless_empty e.comment;
}

unfoldable pub to_atlas : IpAccessEntries → List PermissionEntry
to_atlas [] = []
to_atlas ((k, e) ∷ m) = to_permission e ∷ to_atlas m

unfoldable pub of_permission : PermissionEntry → IpAccessEntry
of_permission p = record {
  cidr = or_empty p.permitted_cidr;
  aws_security_group = or_empty p.permitted_group;
  delete_after_date = p.expires;
  comment = or_empty p.note;
}

-- the loop of fromAtlas
unfoldable pub collect : List PermissionEntry → IpAccessEntries → IpAccessEntries
collect [] entries = entries
collect (p ∷ ps) entries = let e = of_permission p in collect ps (insert (entry_id e) e entries)

unfoldable pub from_atlas : List PermissionEntry → IpAccessEntries
unfolding collect
from_atlas ps = collect ps []

-- project.IPAccessList; a date is kept as the time that FormatISO8601 prints.
pub record InternalEntry : Type 0 where
  pub group : String
  pub block : String
  pub ip_address : String
  pub remark : String
  pub date : Option ℕ

-- `strings.HasSuffix(cidr, "/32")` and `strings.TrimRight(cidr, "/32")`
unfoldable pub host_address : String → String
host_address cidr = if has_suffix cidr "/32" then trim_right cidr "/32" else ""

unfoldable pub to_internal : IpAccessEntry → InternalEntry
unfolding host_address
to_internal e = record {
  group = e.aws_security_group;
  block = e.cidr;
  ip_address = host_address e.cidr;
  remark = e.comment;
  date = e.delete_after_date;
}

unfoldable pub from_internal : IpAccessEntries → List InternalEntry
unfolding to_internal
from_internal [] = []
from_internal ((k, e) ∷ m) = to_internal e ∷ from_internal m
