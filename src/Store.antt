-- ===== src/Store.antt =====
-- The database of prisma/schema.prisma, as far as orders and cash go: a table is the list of its
-- rows in the order of their creation, and the state of the program is the tables together.
-- `findUnique` and `findFirst` are `find?`, `update` and `updateMany` are `update_where`, `create`
-- appends a row under the next unused id. Ids are only compared, so they are numbers.
pub mod Keys
pub mod Errors
pub mod Rows
pub mod Lookups
pub mod Example
