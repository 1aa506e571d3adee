-- ===== src/Examples.antt =====
-- A small database on which the theorems are applied: an administrator, an employee, two laptops of
-- one category, a request and a ticket.
pub mod Data
mod Valid
mod Assignment
mod Shipping
mod Requests
mod Support
mod Pagination
mod LifeCycle
mod Libraries
mod Auth
mod Queries
mod Ledger
