-- ===== src/Lib.antt =====
-- The workbenches operator: two admission webhooks for Notebooks, the reconciliation of the
-- Workbenches custom resource, and what these share. The development models the Go code of the
-- operator; a function is named as in the source, in snake case, and stands in a module for the file
-- or the part of a file that it belongs to.
--
--   Connection       internal/webhook/notebook/mutating.go. `Annotation` parses the annotation
--                    opendatahub.io/connections, `Checks` looks the secrets up and asks for the user's
--                    permissions, `Actions` compares the old and current references, `EnvFrom` changes
--                    the container's list envFrom, and `Webhook` composes these as Handle does.
--   HardwareProfile  internal/webhook/hardwareprofile/mutating.go. `Resources`, `Claims`,
--                    `NotebookClaims`, `NodeSelector` and `Tolerations` change the parts of a Notebook,
--                    `Apply` and `Removal` compose them, `Containers` validates the container names and
--                    makes events, `OldObject` reads the object before an update, and `Webhook` is
--                    Handle: it returns the response with the events that it created.
--   Metadata         internal/metadata: the keys of the annotations and labels.
--   Api              api/v1alpha1/workbenches_types.go: the Workbenches object with its spec and status.
--   PlatformConfig   internal/platformconfig/config.go: `Distribution` reads the ConfigMap and resolves
--                    the distribution, `Releases` is the handshake on the platform's version.
--                    `Predicate` is internal/controller/platform_config_predicate.go.
--   Releases         internal/releases/releases.go.
--   Conditions       The conditions of the status, and the sanitizing of them in
--                    internal/controller/workbenches_controller.go.
--   Reconciler       internal/controller/workbenches_controller.go. `Cluster` has the calls of the API
--                    server and of the component that renders manifests, `Namespaces` the settings and
--                    the preparation of the namespaces, `Deployments` the checks of the deployments,
--                    `Status` the parts of the status, `Ready` the condition Ready and the status that
--                    is written, `Loop` Reconcile itself, `Watches` the
--                    predicates and mappings of the watched objects. `Ingress` is ingress_contract.go, and
--                    `ImageStreams` is imagestreams.go. A reconcile takes the state of the cluster and
--                    returns it with the error and the time after which it is tried again.
--                    `Ready/Machine` has the abstract state machine of the handshake.
--   Phase            internal/status/phase.go.
--   Platform         internal/platform/platform.go.
--   Tls              internal/webhook/tls: `Detect` for detect.go; `Owner`, `Client` and `Ensure` for
--                    ensure.go. A function that calls the API server takes the server's state and
--                    returns it with its result.
--   Merge            internal/controller/merge_deployments.go. The loop over the rendered containers
--                    changes them in place: its result is put where they stand.
--   Probes           internal/controller/probes.go.
--   Format, Integer  The formatting verbs of messages, and the order of the integers.
--   Json, Dict       the values of Go's `any` that JSON decoding makes, and maps with text keys. A map
--                    is a list of entries in the order in which a loop meets them, which Go leaves
--                    open; what is proved for every list holds for every order.
--   Errors           errors, results, and the wrapping of fmt.Errorf.
--   Admission        requests, responses and codecs of an admission webhook.
--   Unstructured     the functions of k8s.io/apimachinery that read and write nested fields.
--   Prelude          library names, lists and texts.
--   Tests            runs, and the theorems at concrete data.
--
-- What is not under the repository is a parameter: `Unstructured` for package unstructured, `Cluster`,
-- `Injector` and `Client` for the API server, `Decoder` and `Encoding` for the codecs, and in
-- `Injector` the parsing of quantities, the validations and the formatting verbs. For the reconciler
-- these are `Conditions` for package meta's conditions, `Cluster` for the API server, `Format` and
-- `ContractFormat` for formatting and for the JSON of a contract, the slicing of a text by its bytes and
-- strings.TrimRight; `Operands` stands for the component that renders, applies and removes manifests,
-- which is under the repository but not modelled. Its functions are arbitrary. The theorems take
-- any instance, with the laws that they name; Unstructured/Reference.antt is one, which the tests run
-- with. Objects that the code changes
-- in place are returned instead: the webhooks own the decoded Notebook, so there is no aliasing beyond
-- the containers, which are written back. Texts are sequences of characters, of which
-- Go's len counts the bytes in UTF-8. Loops over slices are structural recursion, so there is no fuel.
--
-- Logging and the registration of the webhooks are not modelled, and neither are the set-up of the
-- reconciler with the manager, the rendering and the garbage collection of manifests,
-- the image parameters, the TLS profile of the manager and the entry point. The loop of
-- ensurer.go, which only calls Ensure at every tick, is left out.
pub mod Prelude
pub mod Errors
pub mod Json
pub mod Dict
pub mod Unstructured
pub mod Admission
pub mod Metadata
pub mod Connection
pub mod HardwareProfile
pub mod Phase
pub mod Platform
pub mod Probes
pub mod Tls
pub mod Merge
pub mod Tests
pub mod Api
pub mod Format
pub mod PlatformConfig
pub mod Releases
pub mod Conditions
pub mod Reconciler
pub mod Integer
