-- ===== src/Tests.antt =====
-- Tests of the definitions on the inputs of the repository's own tests, and the theorems at
-- concrete inputs.
mod Samples
mod Client
mod Auth
mod Account
mod Routes
mod Site
mod Records
mod Mapping
mod Texts
mod Detail
