-- ===== src/Db/Keeps.antt =====
-- Well-formedness and the statements (src/internal/db).
pub mod Users
pub mod Rows
pub mod Steps
