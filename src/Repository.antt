-- ===== src/Repository.antt =====
-- The SQLite projection, `backend/src/db`. Each table is the list of its rows behind their primary
-- keys, each statement a function on it; a column of JSON text holds the document that it encodes.
-- What the clock says is an argument.
pub mod Records
pub mod Tables
pub mod Actions
pub mod Events
pub mod Quotes
pub mod Evidence
pub mod Jobs
pub mod Catches
pub mod Projection
mod Examples
