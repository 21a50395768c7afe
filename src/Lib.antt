-- ===== src/Lib.antt =====
-- The Akuity provider for Crossplane: controllers that bring resources of the Akuity platform to
-- the state that managed resources of a Kubernetes cluster declare. A reconciler of
-- crossplane-runtime calls a controller's Observe, and by its answer Create, Update or Delete; a
-- controller reads and patches the gateway through a client. What the controllers share: errors
-- have kinds (terminal, retryable, not found) and a guard remembers a write that the gateway
-- refused for good, so that the same write is not sent again until its payload changes.
--
-- Which module models which part:
--   Common      conditionals, lists, results, texts and their order, integers; Common.Nul has the
--               texts that a NUL ends
--   Reason      internal/reason/{terminal,retryable,notfound,notreconciled,permissiondenied}.go;
--               ClassifyApplyError is classify_apply_error, and so on for every function
--   Managed     the metadata of a managed resource, the answers of Observe, and
--               internal/controller/base/{condition,observed_generation}.go
--   Guard       internal/controller/base/terminal_write_guard.go; Record, Clear, HasResource and
--               Suppress are record_write, clear, has_resource and suppress. Guard.View is the
--               abstract map that the guard refines
--   Base        internal/controller/base/{fetch,external}.go, through which controllers use the
--               guard and read errors of a get
--   Json        decoded JSON, with maps as lists of entries
--   Drift       internal/controller/base/{drift,drift_eval}.go
--   Children    internal/controller/base/children/drift.go; Compare is compare_children
--   AllowList   internal/controller/instanceipallowlist/instanceipallowlist.go; Observe, Create,
--               Update and Delete are observe, create, update and delete
--   ShardAgent  internal/controller/kargodefaultshardagent/kargodefaultshardagent.go; the methods
--               are observe_agent, create_agent, update_agent and delete_agent
--   ClusterTypes  internal/types/generated/crossplane/v1alpha1/cluster_types.go
--   CustomSize  internal/controller/cluster/custom_size.go
--   Glue        internal/types/generated/crossplane/v1alpha1/glue.go
--   Cluster     internal/controller/cluster/{cluster,convert}.go, with the conversions and
--               internal/types/observation/cluster.go; Observe is observe_cluster, Create is
--               create_cluster, Delete is Cluster.Delete.delete_cluster_resource
--   Secrets     internal/secrets/resolve.go
--   Kube        internal/clients/kube/{apply_client,targetapply}.go; ApplyManifests is
--               apply_manifests
--   Gateway     internal/clients/akuity/{client,metrics}.go; GetCluster is get_cluster, and so on for
--               every method, in Gateway.Gets, Workspaces, Argo and Kargo
--   KargoAgent  internal/controller/kargoagent/{kargoagent,convert,custom_size}.go, with the types,
--               conversions and observation of an agent; Observe is observe_kargo_agent, Create
--               create_kargo_agent, and so on. KargoAgent.Gateway fills its client with Gateway's
--
-- A child named State has the records of its component and the calls that it makes, and its
-- parent passes them on; the other children have the theorems, named for what they are about.
--
-- State is passed explicitly. A controller's state is a world: the state of the gateway, of any
-- type, the guard, and the managed resource. A method takes a world and returns its results with
-- the world that it leaves, so that a gateway call that is not made can be told. A Go error is an
-- option of an error, and a function that returns a value or an error returns a result. A Go map
-- is a list of entries with each key at most once, in the order in which a range loop would meet
-- them. The mutex of the guard makes each of its methods one step; Guard.Invariant has the steps
-- as a relation. Loops are recursive on the list that they range over; the wait for a deletion is
-- recursive on the number of polls that its timeout allows, which is a parameter. A stream of manifests
-- is the sequence of what `select` receives of its two channels, up to where the loop ends.
--
-- Parameters, with what is assumed of them where a theorem needs it: the gateway (an accepted
-- patch is stored, calls do not change the agents, and a read changes nothing), the generated
-- gateway clients, retry-go, the kube client and discovery, the YAML and JSON libraries (a rendered
-- document parses to itself), times, structpb, cmp.Equal, SHA-256 (no collision, where a theorem
-- says so), the status of a grpc error and the tests of apierrors.
--
-- Not modelled: the Instance and KargoInstance controllers, the projection to declared fields
-- (internal/controller/base/presence.go), the conversions between API versions but those of a Kargo
-- agent and of a cluster (internal/types, internal/marshal), and the wiring that builds clients and
-- registers controllers. Debug lines and authorization headers are left out everywhere.
pub mod Common
pub mod Reason
pub mod Managed
pub mod Guard
pub mod Base
pub mod Json
pub mod Drift
pub mod Children
pub mod AllowList
pub mod ClusterTypes
pub mod Cluster
pub mod Glue
pub mod Gateway
pub mod KargoAgent
pub mod CustomSize
pub mod Kube
pub mod Secrets
pub mod ShardAgent
