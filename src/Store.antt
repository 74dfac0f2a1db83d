-- ===== src/Store.antt =====
-- The database: app/models/conversation.py, app/models/message.py, app/models/user.py and
-- app/models/ai_log.py. A table is the list of its rows, newest first; ids come from one counter
-- for each table. A point in time is a number of seconds. The columns `updated_at`,
-- `assigned_operator_id` and `operator_id` are left out: only the dashboard reads them.
pub mod Rows
pub mod Messages
pub mod Conversations
pub mod Users
