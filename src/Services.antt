-- ===== src/Services.antt =====
-- app/services/: the service layer, one module for each service.
pub mod DeviceLog
pub mod Lookup
pub mod Assignment
pub mod Requests
pub mod Shipping
pub mod Extension
pub mod Support
pub mod Inventory
pub mod Users
pub mod Auth
