-- ===== src/Lib.antt =====
-- The back end of an IT asset management service: employees request devices, and IT administrators assign,
-- ship, repair, swap and take them back. The model covers what changes state, who may do so, and what
-- the listings show.
--
-- Parts, and the files that model them (paths from the repository's root):
-- - Enums, Models: app/models/, one data type for each enumeration and one record for each table. UUIDs,
--   instants and days are numbers; a nullable column is an Option.
-- - Table, Database, Repositories: app/repositories/ over PostgreSQL. A table is a list of rows in the order of
--   insertion. Db has the tables; Env has what one call takes from outside (the transaction's now(), the
--   clock's readings in order, the UUIDs drawn for new rows), so that every operation is a function of
--   its arguments, Env and Db. update_X and insert_X are the flush of one row: they check the foreign keys,
--   primary keys, unique columns and the partial unique index of
--   alembic/versions/19fa64831348_create_itam_schema.py, and raise integrity_error or write the row.
--   Repositories/Queries has the SELECT statements as functions on the tables; Sql has what PostgreSQL does
--   with texts (ILIKE, the collation of names), as parameters. Rows that an ORDER BY leaves open stand in the
--   table's order. A flush checks all columns of the row that is written. updated_at moves if the row has changed.
-- - Result: app/core/exceptions.py. A handler returns a value or raises an error; `try` with IntegrityError is
--   on_integrity_error. Result/Ensures has the rules to reason about handlers that return.
-- - Services: app/services/, one function for each method that changes state. A method returns the row as it
--   was refreshed, of which Views has the copies that callers see.
--   Services/Assignment: assign, direct_assign, update_booking_range. Services/Requests: reject, cancel,
--   escalate_to_manager. Services/Shipping: ship, confirm_delivery, complete_return. Services/Extension: approve,
--   reject. Services/Support: start, resolve. Services/Inventory: create_item, edit_item, change_status.
--   Services/Users: create_user (with the password hash as an argument), change_role, deactivate, activate.
--   Services/DeviceLog: append, which the operations on devices call.
-- - Views: the read methods of app/services/ with the dataclasses that they return. Where several services
--   declare the same class (RequestResult, ItemResult, UserResult) there is one record.
-- - Security, Services/Auth: app/core/security.py and app/services/auth_service.py. bcrypt, PyJWT and Python's
--   uuid are the parameter Libraries, with what the code relies on as IsLawful; Examples/Libraries has an instance.
--   bcrypt raises a ValueError for a password of more than 72 bytes: hashpw and checkpw return Options, and the
--   code passes the error on as value_error.
-- - Api: app/api/v1/routers/ with the validators of app/schemas/ and app/db/session.py. A Call is one request to
--   an endpoint that changes state; serve validates it, runs the service, and commits or rolls back. Calls
--   that overlap in time are taken in the order of their commits. serve_register is POST /auth/register, which no
--   gate protects. Api/Reach: the databases that calls and registrations lead to; Api/History and Api/LifeCycle: the
--   log and the requests over such a history.
-- - Api/Guard: the gate of app/api/v1/dependencies.py in front of the endpoints under /admin: serve_request takes
--   the bearer of a request, refuses it or serves the call with the token's subject as its actor.
-- - Ledger: an abstract view of the whole, the request that holds each device, with the steps it can take.
-- - Pagination: app/utils/pagination.py and the listing of app/repositories/base.py, on the rows that the query
--   selects in its order.
-- - Invariant: what holds between calls, and that each operation keeps it. Outcomes: what each operation has
--   found and written if it returns. Properties: what follows for the users of the service.
-- - Examples: a small database on which each theorem is applied.
--
-- All loops are over lists, by structural recursion, so there is no fuel and every operation is total.
--
-- Not modelled: the endpoints that only read (their services and queries are), response envelopes, logging,
-- middleware, rate limits, the health check, configuration but for the settings of tokens, and scripts; length
-- limits of texts. The checks of pydantic on single fields are taken as the types of a Call. A token has the
-- claims that the code writes or reads, in whole seconds. Delete of a row, which nothing calls, is left out.
pub mod Prelude
pub mod Result
pub mod Enums
pub mod Models
pub mod Table
pub mod Database
pub mod Security
pub mod Repositories
pub mod Services
pub mod Invariant
pub mod Api
pub mod Outcomes
pub mod Pagination
pub mod Properties
pub mod Examples
pub mod Views
pub mod Ledger
