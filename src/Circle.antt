-- ===== src/Circle.antt =====
-- internal/modules/campus_circle: sections in two levels, and the posts in them.
pub mod Post
pub mod Rule
pub mod Access
pub mod Input
pub mod Database
pub mod Store
pub mod Manager
pub mod Memory
pub mod StoreTests
pub mod Tests
