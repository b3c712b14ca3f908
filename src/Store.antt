-- ===== src/Store.antt =====
-- client/aimless/store.py: the tables of the local database, one record of lists of rows.
--
-- A table is the list of its rows in the order of their insertion, a column is a field, and an
-- INTEGER column that holds 0 or 1 is a Boolean. The JSON text of the column `seqs` is kept as the
-- list of its entries. Timestamps are numbers of milliseconds. A method is a function of the
-- state; each one holds the store's lock while it writes, so that it is one step.
pub mod Rows
pub mod Conversations
pub mod Messages
pub mod Deliveries
pub mod Cursor
pub mod Ingest
pub mod Pending
pub mod Valid
pub mod Reading
pub mod Ids
