-- ===== src/Mapping.antt =====
-- frontend/src/pages/ColumnMappingReviewPage.tsx: the review of a header shape's mapping.
pub mod Changes
pub mod Stored
pub mod Review
pub mod Link
pub mod View
