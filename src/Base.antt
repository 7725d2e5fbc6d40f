-- ===== src/Base.antt =====
-- What the modules share: numbers, texts, lists, maps, sorting and the tests on them.
pub mod Tests
pub mod Lists
pub mod Int
pub mod Map
pub mod Text
pub mod Sort
