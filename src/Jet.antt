-- ===== src/Jet.antt =====
-- adapter/erjet: a store over PostgreSQL, which reads and writes the rows of a declaration.
pub mod Sql
pub mod Values
pub mod Column
pub mod Table
pub mod Satellite
pub mod Store
pub mod Rels
pub mod Child
