-- ===== src/Site.antt =====
-- The landing site, marketing/src: its languages, addresses, texts, values and form.
pub mod Copy
pub mod Spanish
pub mod English
pub mod Addresses
pub mod PilotForm
pub mod Samples
