-- ===== src/Schema.antt =====
-- The data model of prisma/schema.prisma: its enums, the rows of its tables and the database.
mod Enums
mod Rows
mod Store
pub use Enums.*
pub use Rows.*
pub use Store.*
