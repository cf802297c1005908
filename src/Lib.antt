-- ===== src/Lib.antt =====
-- The campus platform backend, a Go service of modules over one MySQL database. Each module has a
-- domain package (entities and rules), a store that runs transactions on its tables, and a manager
-- that validates input and calls the store. Modules meet in the database: an errand has a trade order,
-- and every change writes a domain event beside it.
--
-- Files and sources:
--   Prelude, Prelude/*       native numbers, 64-bit wrap-around, tests and case lemmas.
--   Platform/Errors          internal/core/apperror/error.go, and what the stores do with gorm:
--                            statements that may fail, `Transaction` with its rollback, and lemmas
--                            that take a successful transaction apart.
--   Platform/Text            strings as code points: strings.TrimSpace, len, %d.
--   Platform/Events          internal/core/domainevent/event.go and writer.go: Write and
--                            WriteWithKey.
--   Platform/Events/Relay    internal/infrastructure/domainevent/relay.go: lease, tick, release; Tries
--                            is the life of one event, which Ticks refines.
--   Platform/Idempotency     internal/core/idempotency/idempotency.go: Execute.
--   Platform/Auth            internal/core/auth/service.go: Login, Refresh and the use of tokens.
--   Platform/Privacy         internal/core/privacy/contact.go: MaskContact.
--   Carpool/Trip, Rule       internal/modules/carpool/domain: the entities, ValidateTripInput,
--                            ViewerRelation, AvailableActions.
--   Carpool/Store            internal/modules/carpool/infrastructure/store.go: create_trip is
--                            CreateTrip, get_trip is GetTrip. Store/Moderation has UpdateTrip,
--                            SubmitReview, Review and RevokeReview, Store/Seats has Join, Leave,
--                            Cancel and CompleteDue.
--   Carpool/Manager          internal/modules/carpool/application/manager.go, and histories of calls.
--   Trade                    internal/modules/trade/domain: orders and the rule for their states.
--   Errand/Task, Rule        internal/modules/errand/domain; Errand/Search has NormalizeMineSearch.
--   Errand/Store             internal/modules/errand/infrastructure/store.go: create and mutate;
--                            Store/Moderation has the publisher's changes and the review,
--                            Store/Lifecycle has Accept, Pickup and Deliver, Store/Finish has finish
--                            with Complete, Cancel, CompleteOrder and CancelOrder. Errand/Contact has
--                            Contact, and Errand/Visible has GetVisible.
--   Errand/Manager           internal/modules/errand/application/manager.go, and histories of calls.
--   Activity/Entry, Rule     internal/modules/activity/domain.
--   Activity/Store           internal/modules/activity/infrastructure/store.go: create and
--                            mutate_activity_tx; Store/Lifecycle has Update, SubmitReview, review,
--                            Publish, Cancel and Finish, Store/Registrations has Register and
--                            CancelRegistration, Store/Reads has GetPublic and Contact.
--   Activity/Manager         internal/modules/activity/application/manager.go, and histories of calls.
--   Circle/Post, Rule, Input internal/modules/campus_circle/domain.
--   Circle/Store             internal/modules/campus_circle/infrastructure/store.go: Store/Sections,
--                            Store/Posts and Store/Likes (changeLike).
--   Circle/Manager           internal/modules/campus_circle/application/manager.go, and histories.
--   Memory, Tests            a database in memory for each store, and runs on it.
--
-- A store is a function of an interface `Database`: its statements, the tables that they see, and the
-- laws of gorm and MySQL that the code relies on (`Lawful`): a statement that reports success has
-- done its work, a read that reports no row has found none, new rows take unused keys. Every
-- statement may fail. The state is a parameter; `Memory` shows that the laws can hold. Rows are locked
-- for update, so transactions on one row run one after the other, and a history is a sequence of
-- calls, each with its readings of the clock. Other services are arguments: the JSON of payloads, the
-- SHA-256 digest, the cipher of contacts, the random numbers, the parser of URLs, the headers of
-- responses, the publishers of events, and the signing of tokens with the store of sessions.
--
-- Versions are uint64 and wrap around, seats and cents are integers that may be negative; lengths are
-- natural numbers, and times are instants in one unit. Error messages, `created_at` and `updated_at`
-- are left out. Recursion is on lists; the digits of a number are printed on fuel of one more than
-- the number, which is more than its digits.
--
-- Not modelled: paged and filtered reads, the HTTP layer, generated code, wiring, migrations, the
-- clients of MySQL and Redis, the code generator, the login through WeChat, permissions, settings,
-- the polling loop of the relay, the callbacks after a commit, and the modules marketplace, comment,
-- notice, academic verification and payment.
pub mod Prelude
pub mod Platform
pub mod Carpool
pub mod Trade
pub mod Errand
pub mod Activity
pub mod Circle
