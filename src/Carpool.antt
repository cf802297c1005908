-- ===== src/Carpool.antt =====
-- internal/modules/carpool: shared trips, from publication and moderation to departure.
pub mod Trip
pub mod Rule
pub mod Database
pub mod Store
pub mod Manager
pub mod Memory
mod Tests
