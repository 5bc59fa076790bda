-- ===== src/Lib.antt =====
-- Verification of go-service-template, the product service of this repository: a Go service that
-- lists, reads, creates, updates, deletes and exports products over HTTP and gRPC.
--
-- How the parts work together. A server (HTTP or gRPC) decodes a request and calls the product
-- handler, which validates it and calls the product service. The service works on the product
-- repository (a table in a database), on a cache with expiry, and on an excel writer, and maps rows to
-- response messages. Paths are from the repository's root.
--
-- - Go: how Go code runs. A computation `M W A` over a world `W` returns a value and a world, panics
--   (a nil pointer is dereferenced, an index is out of range), or is out of fuel. `deferred` is a
--   `defer` of one call. A pointer that may be nil is an `Option`, an `error` is an `Option (Error F)`.
-- - Platform: the types and functions of packages outside the repository that the service hands on
--   or calls (helper packages, gorm, protobuf's runtime): float64, timestamps, statuses, page data, the
--   errors that helper/errors makes. They are parameters of every definition that uses them.
-- - Pmcpb: the messages of common.pb.go and, in Pmcpb.Status, of errors.pb.go in
--   go-service-template/protos/pmcpb/protobuf, and their getters.
-- - Api: go-service-template/api/product. One module for each message of product.pb.go, with its
--   getters and the `Validate` and `ValidateAll` of product.pb.validate.go (`validate`,
--   `validate_all`, both by `validate_with`); Api.Errors has the error values of all messages and their
--   texts, with a child for the two error types of each message, and Api.Rules the steps that the
--   validators share. Api.Validation holds the proofs. Api.Server is the interface of the servers and
--   `UnimplementedProductServer`; Api.Http models product_http.pb.go (`http_handler` is the body that the
--   eight handlers share), Api.Grpc models product_grpc.pb.go (handlers, table of methods, client),
--   and Api.Transports sets the two side by side. Api.Wire names the types of the messages that a
--   connection carries, and Api.Grpc.Remote has the client's calls over a connection to a server; what
--   the connection does is its hypothesis. Api.Enums has the enumerations of product.pb.go.
-- - Types: go-service-template/internal/types. The entity and its migration, the filters, the mappers
--   to responses, and the mapping of a sheet's row to a product's information.
-- - Repository: go-service-template/internal/repository/product_repository.go. The generic repository
--   and gorm's queries are parameters. Repository.Lawful says what the service relies on: a table of
--   rows that a find reads, and that a create, an update or a delete changes or, when it returns an
--   error, leaves.
-- - Cache: the cache client, a parameter, and its laws over time that passes by seconds.
-- - Export: go-service-template/internal/export. The excel writer is a parameter with its own state.
-- - Service: go-service-template/internal/service/product_service.go, each method over a world of the
--   database and the entries of the cache. Its children hold the proofs, by what they show:
--   Service.Reading, Lookup, Writing, Editing, Exporting, RoundTrip, and Unique and Staleness for
--   sequences of calls. Service.Catalog is the abstract view of the table: a map from uids to products,
--   which forgets the order of the rows and their ids, with a step for each request; its children relate
--   it to a table with distinct ids and uids. Service.Interleaving splits creates, updates and deletes at
--   their calls of the database: a request is at a stage, and a step of the system is a request that
--   arrives or one call of one request; Service.Interleaving.Owning adds ids that are never given twice,
--   and Service.Interleaving.Apart creates that do not meet another create of their SKU.
--   Service.Factory is service_factory.go beside it; the factory and the service are places of a heap
--   there, and `oncex.OnceValue` of the helper packages is a parameter with laws.
-- - Handler: go-service-template/internal/handler. Handler.Product validates and calls the service,
--   Handler.Kafka is `CheckKafka` over a queue as a parameter, Handler.Rest has the routes and
--   Handler.Servers the registration of both servers on one context. Handler.Rest.Stored takes a
--   request through HTTP, handler and service to the table, Handler.Remote from the gRPC client to
--   the catalog.
-- - Config: go-service-template/internal/config/config.go, over the settings of the helper packages.
-- - Registry: go-service-template/internal/registry, the contexts of the server, the consumer and the
--   cron commands, where a method of an embedded interface panics if the interface is nil.
--   Registry.Sharing has the lazy service factory of the server's context, Registry.Security the
--   security contexts, Registry.Workers the interfaces of the consumer and of the cron commands.
-- - Consumer: go-service-template/internal/consumer/consumer.go, the dispatch of queue messages, and
--   go-service-template/cmd/consumer/main.go: the choice of listeners and, in Consumer.Main, the process.
-- - Cron: go-service-template/internal/cron and go-service-template/cmd/cron/main.go.
-- - Tests: platforms, repositories, caches, sheets and servers in memory, and the theorems at them.
--
-- Numbers. int32 and int64 fields are integers without a bound: the code compares and hands them on
-- but does no arithmetic on them. The row number of an export is a natural number; Go's int overflows
-- only beyond any sheet. Times are in seconds.
--
-- Fuel. The paging loop of the export has no bound in the code. Here it runs on fuel, one unit for each
-- page, and any fuel above the number of pages that the repository serves is enough, as is proved below.
-- Base.Decimal prints a number on its own value as fuel, which exceeds its number of digits.
--
-- Concurrency. Requests that are served at once interleave at their calls of the database, each of
-- which is atomic; between two calls a request works on its own values only. Only creates, updates and
-- deletes are split in this way, since reads change no row. A write by an id could meet another product
-- than the one that was looked up; Service.Interleaving.Owning assumes that ids are given in series.
-- The entity declares a unique index on the SKU. The model does not rely on it: it asks what the count of
-- `CreateProduct` does by itself, and Service.Interleaving.Apart has the arrivals of creates for which the
-- count is enough. Two creates of one SKU that both count before either inserts are left to the index.
-- An update by gorm also sets `updated_at`, which the service never reads; the laws leave it out.
--
-- Not modelled: reflection, reset and descriptors of the generated messages (protobuf's runtime), the
-- swagger routes (helper packages), the packages of internal/types/define and types.go, which hold no
-- code, and the deployment files outside go-service-template.
pub mod Base
pub mod Go
pub mod Platform
pub mod Pmcpb
pub mod Api
pub mod Types
pub mod Repository
pub mod Cache
pub mod Export
pub mod Service
pub mod Handler
pub mod Tests
pub mod Registry
pub mod Config
pub mod Cron
pub mod Consumer
