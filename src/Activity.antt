-- ===== src/Activity.antt =====
-- internal/modules/activity: events that members sign up for.
pub mod Entry
pub mod Rule
pub mod Access
pub mod Database
pub mod Store
pub mod Manager
pub mod Memory
pub mod Tests
pub mod StoreTests
