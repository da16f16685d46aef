-- ===== src/Lib.antt =====
-- A model of the core of the MongoDB Atlas operator for Kubernetes, with its theorems.
--
-- The operator reconciles custom resources with MongoDB Atlas. Newer resources are run by one generic
-- state machine (pkg/controller/state); older ones have a controller each (internal/controller),
-- which shares conditions, results and a workflow context (internal/controller/workflow), helpers on
-- the resource (internal/controller/customresource), and reaches Atlas through a service of its
-- translation layer (internal/translation).
--
-- State: the state machine. State.antt has the states and pkg/state/state.go (GetState, EnsureState);
--   State/Finalizers pkg/finalizer/finalizer.go; State/Results pkg/result/result.go; State/Ready
--   NewReadyCondition; State/Generation getObservedGeneration; State/Reapply
--   pkg/controller/state/reapply.go; State/Dispatch ReconcileState and reconcileReapply;
--   State/Reconciler Reconcile, in the steps between its returns. State/Kube is the part of the API
--   machinery that the code relies on, a parameter with its laws, of which State/Concrete is an
--   instance; State/Sim is the client, the clock and the log of the calls. State/Runs is one
--   reconciliation of an object that a cluster stores, State/Lives a run of several, and State/Life
--   the step relation that it refines.
-- Workflow: api/condition.go (Workflow/Conditions), internal/controller/workflow (Results, Context)
--   and internal/dryrun/error_queue.go (ErrorQueue).
-- Resource: internal/controller/customresource: annotations and versions (Policy), ownership and the
--   applied configuration (Protection), finalizers (Finalizer), PrepareResource and
--   ValidateResourceVersion (Prepare). Resource/Scene is the state that a legacy controller changes,
--   with the log of its calls; Resource/Frame and Resource/Leading are what its steps leave alone,
--   Resource/Giving how a finalizer is given up.
-- Collection: internal/collection, internal/compare, and internal/translation/paging (Paging).
-- Reconciler: internal/controller/reconciler: reconciler.go (Outcomes), project.go (Project) and
--   credentials.go (Credentials). Reconciler/Passage is handleCustomResource with the controller's
--   own part as a parameter, and Reconciler/Reaching when it gets there.
-- AccessList: internal/translation/ipaccesslist (Entries, Conversion, Service),
--   api/v1/status/atlasipaccesslist.go (Status), internal/controller/atlasipaccesslist
--   (Controller, and Reconcile for what precedes it).
-- NetworkContainer: internal/translation/networkcontainer (Conversion, Service) and
--   internal/controller/atlasnetworkcontainer (Controller, and Reconcile for what precedes it).
-- NetworkPeering: internal/translation/networkpeering (Conversion, Status, Service) and
--   internal/controller/atlasnetworkpeering: transition.go and handle (Controller), what precedes
--   it (Reconcile).
-- DatabaseUser: internal/cmp/normalize.go (Sorting), internal/translation/dbuser (Conversion,
--   Service) and internal/controller/atlasdatabaseuser: the transitions and the helpers
--   (Controller), dbuLifeCycle and its states (Lifecycle), what precedes it (Reconcile).
-- Validate: internal/controller/validate: instance_size.go (InstanceSize), deployment.go and tags.go
--   (Regions, Deployment), validate.go and internal/timeutil (Project, Backup). A Go panic is a
--   value there.
-- CustomRole: internal/translation/customroles (Conversion, Service) and
--   internal/controller/atlascustomrole/custom_role.go (Controller).
-- Base: numbers, lists, texts, errors, and Effect, the passing of a state.
-- The other files hold theorems, or what they are put together from; the files Tests and RunTests
--   hold concrete runs.
--
-- A reconciliation is a function from a state to a result and a state. The state has a world, which
-- stands for the cluster and Atlas and is changed only by the client and the service that are passed
-- in; the resource in memory, a pointer in Go; and the list of the calls made, the latest first. An
-- error is a value (Base/Errors) with the sentinels that the code asks for by errors.Is.
--
-- Bounds: durations, times and generations are numbers without a bound, in nanoseconds; Go's 64 bits
-- hold 292 years of them, and the code's own constants are minutes at most. The loop of
-- internal/translation/paging has no bound in Go and runs on fuel here, where one round more than a
-- bound on the total count is enough. removeOldUser tries three
-- times; all other loops go over a list.
--
-- Parameters are what is not in the repository: the Kubernetes client and the API machinery, the
-- clock, the Atlas SDK behind the services, the packages net, time, strconv, semver and encoding/json.
-- Not modelled: logging and events, the set-up of managers and watches, the update of
-- the status, the connection secrets of database users and
-- the deployments that they ask for (parameters too), the other controllers and translation
-- layers, generated code.
pub mod Base
pub mod State
pub mod Workflow
pub mod Resource
pub mod Collection
pub mod Reconciler
pub mod AccessList
pub mod NetworkContainer
pub mod NetworkPeering
pub mod Validate
pub mod DatabaseUser
pub mod CustomRole
