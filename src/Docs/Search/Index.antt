-- ===== src/Docs/Search/Index.antt =====
-- The pages of the search index that are modelled.
pub mod Found
pub mod AllBFirst
pub mod AllBSecond
pub mod AllBThird
pub mod AllBFourth
pub mod AllB
pub mod Enumvalues9First
pub mod Enumvalues9Second
pub mod Enumvalues9Third
pub mod Enumvalues9Fourth
pub mod Enumvalues9
pub mod All11First
pub mod All11Second
pub mod All11Third
pub mod All11
pub mod All9First
pub mod All9Second
pub mod All9Third
pub mod All9
