-- ===== src/Outcomes.antt =====
-- What an operation that returns has found and written: its guards, and the database it leaves as an
-- equation.
pub mod Logs
pub mod Moves
pub mod TicketMoves
pub mod DeviceLogs
pub mod Writes
pub mod Assignment
pub mod Shipping
pub mod AutoClose
pub mod Returns
pub mod Swap
pub mod Support
pub mod Requests
pub mod Extension
