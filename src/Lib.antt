-- ===== src/Lib.antt =====
-- A model of the Go library of managed services: HTTP providers of the Codesphere contract that run
-- their detached operations as Kubernetes Jobs.
--
-- A request goes through the middleware chain (api/server.go, middleware/middleware.go) to a route of
-- a provider (provider/routes.go), which binds and validates the payload and calls the provider's
-- method (provider/interface.go). A provider is built from the helpers of provider/base.go and, for
-- backups and restores, of provider/servicejob.go and provider/backupjob.go, whose Job specs go to
-- the job runner (client/jobrunner.go). That makes, watches and deletes Jobs and their credentials
-- Secrets through the `KubernetesClient` interface of client/kubernetes.go, which client-go
-- implements. The errors of the client come back wrapped and are answered by `HandleError`.
--
-- Which file models what, function by function under the source's names in snake case:
--   Model/Kubernetes   model/kubernetes.go: kinds, references, patches, labels
--   Model/Contract     model/common.go: the contract's types
--   Failure            the sentinel errors of client/kubernetes.go and provider/base.go, `errors.Is`,
--                      `fmt.Errorf` with one `%w`
--   Client             client/kubernetes.go: Types holds the fields of k8s.io/api that are used, Api
--                      the interface and the calls of client-go, Kubernetes the implementation,
--                      Config the making of a client
--   JobRunner          client/jobrunner.go: Types, Duration (`durationSeconds`), Build (`buildJob` and
--                      its parts), Inspect (`State`), Dispatch (`Run`, `Delete`, `Replace`); Cluster
--                      says what is asked of the cluster behind the client, Cluster/Server that the
--                      client over an API server meets it, and when; Contract is what the runner promises of
--                      one call, Available that the calls of a cluster that answers
--                      succeed, History of calls in any order, Race of concurrent `Run`s, `Replace`s
--                      and `Delete`s, Isolation that a call touches one name only, Polling
--                      `State` after `Run`, Retry repeated calls of `Replace`
--   Provider           provider/base.go, interface.go, servicejob.go, backupjob.go; Base/Discovery and
--                      Base/Paused, ServiceJob/Isolation use them over a cluster
--   Routes             provider/routes.go: Payloads, Handlers, Errors (`HandleError`), and in
--                      Errors/Lookup the lookup of a service through all layers, in Errors/Jobs the
--                      errors of the runner
--   Http               the part of net/http and gin that handlers touch
--   Middleware         middleware/middleware.go
--   Server             api/server.go: routes and middleware chain; `serve` is a request's run; Table
--                      is about the server's own routes, Paths to Endpoints follow a request to its
--                      provider; Lifecycle has `Run` and `Shutdown`
--   Telemetry          telemetry/: Setup (`Setup`, `Transport`) and Log (`LogHandler`)
--   Config             config/config.go
--   Common             lists, numbers, string maps, decimals and times that they share
--   Tests              a cluster in memory, concrete runs, and each result at a concrete input
--
-- A function that calls the cluster takes the state of the world and gives its result and the next
-- state (`Action`); a handler does the same with the response under construction and may panic
-- (`Handler`). A Go `(value, error)` is a `Result`, an `error` an `Option Error`. A map is an
-- association list with distinct keys, in the order in which Go happens to meet the entries.
--
-- Bounds and fuel. A duration is an integer of nanoseconds. `d.Seconds()` is a float64: the model
-- rounds as its 53 bits do, for up to 2 ^ 34 seconds, which no `int64` of nanoseconds reaches, and is
-- exact below 2 ^ 23 seconds. The `int32` of the TTL wraps. Printing a decimal takes fuel one above
-- the number and the width, more than it has digits. Times are nanoseconds since Go's zero time.
--
-- Parameters, for code that the program only calls: the calls of client-go (`ApiServer`,
-- `ApiErrors`, `ClientGo`), the accessors and the converter of apimachinery (`Objects`),
-- `ParseQuantity`, gin's router (`find`, with its documented preference for a static pattern as
-- `IsRouter` and its matching of patterns as `IsMatcher`), net/http's server, the
-- OpenTelemetry SDK (`Sdk`, with what it documents of its providers as `IsSdk`), a `slog.Handler`, JSON decoding with the validator (`Binder`), the
-- validator's test of a URL. What is asked of a cluster is the records `IsCluster`, for calls that
-- succeed or conflict, `IsStore`, for any reply, `IsLocal`, that a call for one name touches no other,
-- `IsAvailable`, that calls are answered, `IsReadable`, that reads tell what is there, `IsPatching`,
-- that a patch is applied, `IsDeleting`, that a deleted Job goes in the end, and `IsListing`, that a
-- list selects by label; of an API server it is
-- `IsServer`, which lets it refuse a creation with Conflict; what the client needs beyond it is
-- `ConflictsMeanTaken`.
-- Instances in memory satisfy them.
--
-- Not modelled: the generated mocks, `context.Context`, the latency in the request log, otelgin's
-- middleware, which records and passes on, gin's own redirects for a superfluous slash, and the
-- providers of the tests and examples.
-- `sort.Slice` may order pods created at one time in any way; the model keeps their order, and no
-- result depends on it.
pub mod Common
pub mod Model
pub mod Failure
pub mod Client
pub mod JobRunner
pub mod Provider
pub mod Http
pub mod Routes
pub mod Middleware
pub mod Config
pub mod Server
pub mod Telemetry
pub mod Tests
