-- ===== src/Web/Pages.antt =====
-- web/src/app: the pages.
pub mod Offers
pub mod Links
pub mod Panel
pub mod Detail
pub mod Tracking
pub mod Queue
pub mod Home
