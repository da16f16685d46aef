-- ===== src/AccessList/Entries.antt =====
-- The entries of internal/translation/ipaccesslist/conversion.go and how they are read. The
-- functions of package net are parameters; a time is a number of nanoseconds.
use mongodb_atlas_kubernetes.Base.{
  ℕ, String, Bool, true, false, not, Option, none, some, List, [], ◌∷◌, if◌then◌else◌, insert,
  is_empty_text, ltb, concat,
}
use mongodb_atlas_kubernetes.Base.Errors.{plain, wrap, Answer, ok, err}

pub record IpAccessEntry : Type 0 where
  pub cidr : String
  pub aws_security_group : String
  pub delete_after_date : Option ℕ
  pub comment : String

unfoldable pub entry_id : IpAccessEntry → String
entry_id e = if not (is_empty_text e.cidr) then e.cidr else e.aws_security_group

-- `DeleteAfterDate.Before(at)`
unfoldable pub is_expired : IpAccessEntry → ℕ → Bool
is_expired e at = elim e.delete_after_date [ none ↦ false | some date ↦ ltb date at ]

abbrev pub IpAccessEntries : Type 0
IpAccessEntries = List (String × IpAccessEntry)

abbrev same_flag : Bool → Bool → Bool
same_flag true b = b
same_flag false b = not b

-- The clock is read once here.
unfoldable pub get_by_status : Bool → ℕ → IpAccessEntries → IpAccessEntries
get_by_status expired now [] = []
get_by_status expired now ((k, e) ∷ m) =
    let rest = get_by_status expired now m in
    if same_flag (is_expired e now) expired then (k, e) ∷ rest else rest

-- net.ParseIP, then the text of the network of that address with 32 bits; and net.ParseCIDR, then
-- the text of its network.
pub record Net : Type 0 where
  pub host_network : String → Option String
  pub cidr_network : String → Answer String

-- akov2.IPAccessEntry of the specification
pub record SpecEntry : Type 0 where
  pub ip_address : String
  pub cidr_block : String
  pub aws_security_group : String
  pub delete_after_date : Option ℕ
  pub comment : String

abbrev pub of_ip : String → Option String → Answer String
of_ip ip none = err (plain (concat "ip " (concat ip " is invalid")))
of_ip ip (some text) = ok text

abbrev pub of_cidr : String → Answer String → Answer String
of_cidr cidr (err e) = err (wrap (concat "cidr " (concat cidr " is invalid")) e)
of_cidr cidr (ok text) = ok text

module _ (net : Net) where
  unfoldable pub parse_ip_network : String → String → Answer String
  parse_ip_network ip cidr =
      if not (is_empty_text ip)
      then of_ip ip (net.host_network ip)
      else if not (is_empty_text cidr)
      then of_cidr cidr (net.cidr_network cidr)
      else ok ""

  abbrev pub entry_of : SpecEntry → String → IpAccessEntry
  entry_of spec cidr = record {
    cidr = cidr;
    aws_security_group = spec.aws_security_group;
    delete_after_date = spec.delete_after_date;
    comment = spec.comment;
  }

  abbrev pub add_entry :
      Answer String
      → SpecEntry
      → IpAccessEntries
      → (IpAccessEntries → Answer IpAccessEntries)
      → Answer IpAccessEntries
  add_entry (err e) spec entries rest = err e
  add_entry (ok cidr) spec entries rest =
      let e = entry_of spec cidr in rest (insert (entry_id e) e entries)

  -- the loop of NewIPAccessListEntries
  unfoldable pub add_entries : List SpecEntry → IpAccessEntries → Answer IpAccessEntries
  unfolding parse_ip_network entry_id
  add_entries [] entries = ok entries
  add_entries (spec ∷ specs) entries =
      add_entry (parse_ip_network spec.ip_address spec.cidr_block) spec entries (add_entries specs)

  unfoldable pub new_ip_access_list_entries : List SpecEntry → Answer IpAccessEntries
  unfolding add_entries
  new_ip_access_list_entries specs = add_entries specs []
