-- ===== src/Properties.antt =====
-- What the operations guarantee, one module for each part of the system.
pub mod Assignment
pub mod Access
pub mod Accounts
pub mod Deactivation
pub mod Auth
pub mod Bookings
pub mod Exclusion
pub mod Extension
pub mod Inventory
pub mod Requests
pub mod Returns
pub mod Shipping
pub mod Support
pub mod Users
pub mod Selection
pub mod Queries
pub mod RequestList
pub mod Listings
pub mod Queues
pub mod Dashboard
pub mod Privacy
pub mod Suggestions
