-- ===== src/Errand.antt =====
-- internal/modules/errand: tasks that one member publishes and another runs, each with a trade
-- order.
pub mod Task
pub mod Rule
pub mod Database
pub mod Store
pub mod Contact
pub mod Search
pub mod Visible
pub mod Manager
pub mod Memory
pub mod Tests
pub mod RuleTests
