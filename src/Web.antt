-- ===== src/Web.antt =====
-- web/src: the pages and Server Actions of the Next.js application.
pub mod Form
pub mod Guard
pub mod Staff
pub mod Tracking
pub mod StaffQueue
pub mod DemoQueue
pub mod RequestDetail
pub mod Env
pub mod PublicForm
pub mod Html
pub mod Components
pub mod Pages
