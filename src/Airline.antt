-- ===== src/Airline.antt =====
-- The booking database of the airline example (airline/database/api.py).
pub mod EditDistance
pub mod Tables
pub mod Schedule
pub mod Lookup
pub mod Changes
pub mod Bookings
pub mod Creation
pub mod Rules
pub mod CreateRule
pub mod Audit
pub mod Lifecycle
pub mod Cancelled
pub mod Nearest
mod Tests
