-- ===== src/Lib.antt =====
-- provider-k3s: a Crossplane provider that installs k3s on machines over SSH.
--
-- The provider reconciles two kinds of resources. A Cluster is a k3s server on a host, a Node is an
-- agent or a server that joins one. A controller connects to the host, and its external client observes,
-- creates, updates and deletes what is there by running commands. A decorator stands between the runtime
-- and that client: it reads spec.driftDetection and reinterprets what Observe found.
--
-- Base, Strings      Go's conventions (errors with their wrapping, results) and the functions of package
--                    strings that the code uses. A string is the list of its code points.
-- K3s                internal/k3s/commands.go. Commands has the builders (InstallCommand, JoinCommand,
--                    RewriteKubeconfig), Probe has ServiceProbe. Shell is an independent reader of
--                    shell words, which InstallWords and JoinWords compare the commands with.
-- Drift              internal/driftdetection/driftdetection.go. Paths is normalizePath, Types is
--                    checkEligibleType on the Go type of a resource, Config is ReadConfig, snapshot
--                    and apply, Client is the decorated external client, Connector is WrapConnector; the
--                    other files have proofs. Substituted is about the copy that apply makes.
-- Applied            what the controllers under internal/controller share: the annotation with the
--                    configuration that was applied last, its persistence, and what follows a script.
--                    Observing is Observe without what a controller reads of its host, and Connect the
--                    way to a host. Each controller is an instance of the three.
-- Cluster            internal/controller/namespaced/cluster/cluster.go and
--                    apis/namespaced/v1alpha1/cluster_types.go. Config is the last-applied
--                    configuration, External the external client, Connect the way to it.
-- Node               internal/controller/namespaced/node/node.go and
--                    apis/namespaced/v1alpha1/node_types.go, with the same children. Connect finds the
--                    Cluster that the Node joins; Deferred and Token are about an error of it. References
--                    is ResolveReferences of zz_generated.resolvers.go, Referenced what it leads to.
-- Scoped             cluster/cluster.go and node/node.go of internal/controller/cluster, where they differ.
-- Controllers        Setup of the Cluster and of the Node controller, with the options of the reconciler as a
--                    list. Startup has the options that main of cmd/provider/main.go makes from its flags,
--                    Config the Setups of the provider configurations.
-- CriticalAnnotation internal/criticalannotation/criticalannotation.go, over contexts with a deadline.
-- DeepCopy           zz_generated.deepcopy.go under apis, over memory: an arena of cells for the targets of each
--                    pointer. Types has the shape of every type, Apart what its cells are.
-- Refresolver        internal/controller/refresolver/refresolver.go, over addresses into a resource.
-- Precheck           canWatchCRD and hasCRDWatchPermissions of cmd/provider/main.go.
-- Registration       zz_generated_register.go, namespaced/namespaced.go and cluster/cluster.go of
--                    internal/controller: the setups with and without the gate.
-- Xpkg               hack/normalize-xpkg-base-layer.go. Package is loadPlatform, Rewrite the comparison,
--                    the patches and the rewriting of a file, Normalize is main.
-- Generate           hack/generate-registration.go. Scan reads the tree of directories, Emit writes the two files.
-- Ssh                internal/clients/ssh/client.go: Config, ConfigureAuth and NewClient, Redact with the
--                    patterns of secrets, and Execute with the client that the controllers use.
-- Runtime            what the controllers take from Kubernetes, client-go and the SSH client.
-- Tests              runs at concrete inputs.
--
-- A stateful call takes the world (the host and the API server) and the managed resource, and returns both
-- with its value and its error. Code of other repositories is a parameter: fieldpath and the unstructured
-- converter (Drift.Interface.ManagedApi), the wrapped client (Drift.Interface.Client), object metadata,
-- the Kubernetes client and the retry on conflicts (Runtime), the reads of Connect (Connect.ConfigApi and
-- Node.Connect.ClusterApi), package ssh (Ssh.SshLibrary and Ssh.Execute.Sessions) and encoding/json at one
-- type (Applied.Codec). The controllers take the SSH client as Runtime.SshClient, which Ssh.Execute.client
-- fills. What is documented of them is a record of laws: IsMetaApi, IsKubeClient, IsCodec, and the field
-- last_attempt of Retry. Xpkg.Files.Formats has archive/tar, gzip, sha256, JSON and YAML, Xpkg.Files.Files
-- the file system, whose laws are Xpkg.Archives.Archives; Precheck.Polling is the poll of apimachinery
-- with how it may end; Refresolver.Resources has the generated resolvers and the merge patch. The resolver of
-- crossplane-runtime is Node.References.Resolver with the laws Node.Referenced.IsResolver, fieldpath has the laws
-- Drift.Substituted.IsFieldpath, Controllers.Manager is the manager, Generate.Tree the directories and
-- Generate.Emit.Output the templates and the files, and DeepCopy.Types.Foreign the types from elsewhere.
--
-- Loops are structural recursion; what a reader of an archive or of YAML documents gives is a finite
-- stream. The loops on fuel are replace_all (strings.ReplaceAll), count (bytes.Count) and redact
-- (ReplaceAllString): the fuel is the length of the text, every step consumes a character, and
-- replace_fuel_enough, count_fuel_enough and redact_fuel_enough say that more changes nothing. Recursion
-- through embedded fields and pointers in structFieldByJSONName follows a finite tree of types.
--
-- Not modelled: the entry point but for its precheck and its options, the generated accessors, the texts of the templates, and
-- hack/generate-interface-assertions.go, which prints assertions. The mutex of the decorator is left out, since
-- one reconcile uses one client; the time of a condition's transition is too, and what is logged or
-- printed. DeepCopy takes for granted that two fields of one struct do not lead to one cell.
pub mod Base
pub mod Strings
pub mod K3s
pub mod Drift
pub mod Ssh
pub mod Runtime
pub mod Applied
pub mod Observing
pub mod Connect
pub mod Cluster
pub mod Node
pub mod Scoped
pub mod Refresolver
pub mod Precheck
pub mod Registration
pub mod Xpkg
pub mod CriticalAnnotation
pub mod Controllers
pub mod Generate
pub mod DeepCopy
pub mod Tests
