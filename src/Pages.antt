-- ===== src/Pages.antt =====
-- frontend/src: the pages and components that have a state or a choice of their own, but are not in
-- the other modules.
pub mod Callback
pub mod PilotInvite
pub mod Uploads
pub mod Frame
pub mod Widgets
