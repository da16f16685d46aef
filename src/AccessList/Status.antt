-- ===== src/AccessList/Status.antt =====
-- api/v1/status/atlasipaccesslist.go: the status options of the access list.
use mongodb_atlas_kubernetes.Base.{String, List, [], ◌∷◌, if◌then◌else◌, str_eq}

pub record EntryStatus : Type 0 where
  pub entry : String
  pub status : String

pub data StatusOption : Type 0 where
  add_ip_access_list_entry_status : String → String → StatusOption
  remove_ip_access_list_entry_status : String → StatusOption

-- the first status of the entry is overwritten; without one a new one is appended
unfoldable pub put_status : String → String → List EntryStatus → List EntryStatus
put_status entry status [] = record { entry = entry; status = status } ∷ []
put_status entry status (s ∷ rest) =
    if str_eq s.entry entry
    then record s { status = status } ∷ rest
    else s ∷ put_status entry status rest

-- the first status of the entry is removed
unfoldable pub drop_status : String → List EntryStatus → List EntryStatus
drop_status entry [] = []
drop_status entry (s ∷ rest) = if str_eq s.entry entry then rest else s ∷ drop_status entry rest

unfoldable pub apply_option : StatusOption → List EntryStatus → List EntryStatus
unfolding put_status drop_status
apply_option (add_ip_access_list_entry_status entry status) statuses =
    put_status entry status statuses
apply_option (remove_ip_access_list_entry_status entry) statuses = drop_status entry statuses
