-- ===== src/Store/Closed/Tables.antt =====
-- The operations of the store keep what is closed under them, table by table.
mod Items
mod Downloads
mod Promotions
pub use Items.*
pub use Downloads.*
pub use Promotions.*
