-- ===== src/Docs/Search.antt =====
-- docs/html/search.
pub mod Ids
pub mod Entry
pub mod Sections
pub mod Box
pub mod HandOver
pub mod Create
pub mod Results
pub mod Index
