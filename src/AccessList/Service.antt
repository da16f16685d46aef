-- ===== src/AccessList/Service.antt =====
-- The interface IPAccessListService of internal/translation/ipaccesslist/ipaccesslist.go, at one
-- project, and the calls of it.
use mongodb_atlas_kubernetes.Base.{String, Option}
use mongodb_atlas_kubernetes.Base.Errors.{GoError, Answer}
use mongodb_atlas_kubernetes.AccessList.Entries.{IpAccessEntry, IpAccessEntries}

pub record IpAccessListService (W : Type 0) : Type 0 where
  pub list : W → Answer IpAccessEntries × W
  pub add : IpAccessEntries → W → Option GoError × W
  pub delete : IpAccessEntry → W → Option GoError × W
  pub entry_state : IpAccessEntry → W → Answer String × W

pub data ServiceCall : Type 0 where
  lists : ServiceCall
  adds : IpAccessEntries → ServiceCall
  deletes : IpAccessEntry → ServiceCall
  asks : IpAccessEntry → ServiceCall
