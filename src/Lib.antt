-- ===== src/Lib.antt =====
-- mern-auth, the packages and apps behind user registration: the API takes a registration, stores
-- the user in MongoDB and a token in Redis, and queues a job; the worker takes the job and sends the
-- verification email; the API verifies the token that comes back.
--
-- Text: the strings that the program takes apart, as lists of UTF-16 code units (a character beyond
--   the basic plane is two), with the methods of String that it calls; toLowerCase is that of ASCII.
--   Other strings are native strings, only compared and joined.
-- Errors: packages/utils/src/errors, and the errors of mongoose and of opossum that are looked at.
-- Exec: a method runs from a state to a value or a thrown error with the state it left. Promises are
--   awaited where the source awaits them; calls of one service do not interleave.
-- Email.Address: packages/utils/src/helpers/email.helpers.ts. normalize_email is normalizeEmail.
-- Cache: packages/contracts/src/services/cache.service.ts. Cache.Adapter is RedisCacheAdapter of
--   packages/core/src/adapters/redis.adapter.ts, Cache.Proxy the proxy of
--   packages/redis/src/circuit-breaker.ts. The Redis client and the breaker are parameters, by one
--   function from a command to a reply. IsStore is what the services rely on in a reachable Redis
--   whose entries do not expire within the calls in question; Cache.Memory is a server at which it
--   holds.
-- Auth: packages/core/src. Auth.Token is TokenService, Auth.Registration is RegistrationService,
--   Auth.Verification is VerificationService. The state of a call (World) is the cache's, the
--   collection's and the queue's. The random token is an argument; hashing and JSON are parameters
--   (Host, HostLaws), and so is the mongoose model (UserModel) with what is documented of a collection
--   with a unique index on normalizedEmail and of transactions (IsUserStore). Auth.Memory has
--   instances at which these laws hold.
-- Queue: packages/queues/src. Queue.add_job is QueueProducerService.addJob, Queue.Producer is
--   ProducerService and fills the QueueProducer interface that Auth takes. The data of a job comes out
--   of BullMQ as it went in.
-- Queue.Lifecycle: metrics, health, pause, resume and close of QueueProducerService, and the singleton of
--   packages/queues/src/instance.ts.
-- Worker: apps/worker/src. Worker.Consumer is EmailConsumer, and Worker.Processor the metrics and the
--   dead-letter queue of QueueProcessorService, as the wrapped processor and the handlers of events
--   change them. Worker.Processor.Balance has the orders in which BullMQ can run these, as a step
--   relation.
-- Email.Provider, Email.Service: packages/email/src/provider.service.ts and email.service.ts. The
--   providers' clients, the template compiler, the log repository and the breaker are parameters.
-- Email.Breaker: the options, statistics and health of email.service.ts's breaker.
-- Email.Bounce: packages/email/src/bounce-handler.ts, with recordBounce of
--   packages/database/src/repositories/email-log.repository.ts.
-- Api.ErrorHandler, Api.Answers: apps/api/src/middleware/core/errorHandler.ts.
-- Database.Connection: packages/database/src/connection-manager.ts. The loop of connect runs on the number of
--   rounds that are left, which starts as the number of retries allowed, so that none is missing.
-- Database.Repository: BaseRepository of packages/database/src/repositories/base.repository.ts; the
--   mongoose model is a parameter.
-- Flags: packages/feature-flags/src/feature-flags.ts. A 32-bit integer is kept as what it is modulo
--   2 ^ 32. The digits of a number are made on fuel, which is the number itself: each round divides
--   by ten.
-- Email.Webhook, Api.Webhooks: the webhooks' signatures and events of
--   packages/email/src/providers/mailersend.provider.ts and resend.provider.ts, and handleWebhook of
--   apps/api/src/features/webhooks/webhooks.controller.ts. Node's crypto, JSON.parse and new Date are
--   parameters.
-- Email.Template: packages/email/src/template-engine.ts, over files that do not change; Handlebars is a
--   parameter.
-- Worker.Service: apps/worker/src/worker.service.ts, over the contract of the processors. The loop of
--   stop runs on fuel; each round sleeps for 500 ms, so that timeout / 500 + 2 rounds are enough.
-- Database.Migrations: packages/database/src/migrations/runner.ts. Sessions, the collection and the
--   migrations are parameters; MigrationLaws is what the runner relies on of MongoDB, and
--   Database.Migrations.Memory has a collection at which it holds.
-- Bootstrap: packages/app-bootstrap/src/bootstrap.ts. The three services are initialised one after the
--   other, where the source starts them together and waits for all.
-- Api.Version: apps/api/src/middleware/business/apiVersion.ts.
-- Api.Health: apps/api/src/features/health; the pings are parameters, and run one after the other.
-- Api.ResponseCache: apps/api/src/middleware/security/cache.ts, over Redis, JSON and the handlers.
-- Examples: tests, and the theorems at concrete inputs.
--
-- Not modelled: logging, tracing, metrics exporters, the server's wiring, the web client, the
-- mappers and the queries of the other repositories, the configuration's schema, and the handlers of signals.
pub mod Prelude
pub mod Errors
pub mod Exec
pub mod Text
pub mod Email
pub mod Cache
pub mod Auth
pub mod Queue
pub mod Worker
pub mod Bootstrap
pub mod Api
pub mod Database
pub mod Flags
pub mod Examples
