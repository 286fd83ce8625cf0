-- ===== src/Admin.antt =====
-- apps/api/src/admin and apps/api/src/auth: accounts. Service has the admin's operations, Dto what
-- they show, Auth the sign-in and the guard of a route.
mod Model
pub use Model.*
pub mod Dto
pub mod Service
pub mod Auth
pub mod Requests
pub mod Outcomes
pub mod Audited
pub mod Remains
pub mod Erased
mod Tests
