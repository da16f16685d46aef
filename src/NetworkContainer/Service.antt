-- ===== src/NetworkContainer/Service.antt =====
-- The interface of internal/translation/networkcontainer/networkcontainer.go at one project, and
-- the choice of Find among the containers of the project.
use mongodb_atlas_kubernetes.Base.{
  String, Bool, Option, List, [], ◌∷◌, if◌then◌else◌, str_eq, ◌&&◌, concat,
}
use mongodb_atlas_kubernetes.Base.Errors.{
  GoError, sentinel, plain, wrap, container_not_found, Answer, ok, err,
}
use mongodb_atlas_kubernetes.NetworkContainer.Conversion.{
  ContainerConfig, NetworkContainer, CloudProviderContainer, container_from_atlas,
}

pub record NetworkContainerService (W : Type 0) : Type 0 where
  pub create_container : ContainerConfig → W → Answer NetworkContainer × W
  pub get_container : String → W → Answer NetworkContainer × W
  pub find_container : ContainerConfig → W → Answer NetworkContainer × W
  pub update_container : String → ContainerConfig → W → Answer NetworkContainer × W
  pub delete_container : String → W → Option GoError × W

pub data ContainerCall : Type 0 where
  creates : ContainerConfig → ContainerCall
  gets_one : String → ContainerCall
  finds : ContainerConfig → ContainerCall
  updates : String → ContainerConfig → ContainerCall
  removes : String → ContainerCall

unfoldable pub is_match : ContainerConfig → NetworkContainer → Bool
is_match cfg c =
    if str_eq cfg.provider "GCP"
    then str_eq c.config.cidr_block cfg.cidr_block
    else str_eq c.config.cidr_block cfg.cidr_block && str_eq c.config.region cfg.region

-- the loop of Find
unfoldable pub matching : ContainerConfig → List CloudProviderContainer → List NetworkContainer
unfolding is_match container_from_atlas
matching cfg [] = []
matching cfg (a ∷ rest) =
    let c = container_from_atlas a in
    let more = matching cfg rest in if is_match cfg c then c ∷ more else more

abbrev pub only_one : List NetworkContainer → Answer NetworkContainer
only_one [] = err (sentinel container_not_found)
only_one (c ∷ []) = ok c
only_one (c ∷ d ∷ rest) = err (plain "ambigous find results")

-- Find, from the containers that paging.ListAll answered.
unfoldable pub find_among :
    String → ContainerConfig → Answer (List CloudProviderContainer) → Answer NetworkContainer
find_among project cfg (err e) =
    err (wrap (concat "failed to list containers at project " project) e)
find_among project cfg (ok listed) = only_one (matching cfg listed)
