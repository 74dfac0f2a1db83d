-- ===== src/Lib.antt =====
-- Verification of a WhatsApp AI assistant's backend (app/).
--
-- A delivery of Meta's webhook reaches a Celery worker (app/workers/tasks.py), which opens a database
-- session and dispatches each message to a handler of `ChatService` (app/services/chat_service.py). A
-- handler finds the customer's session, claims the inbound message under a unique index, commits,
-- asks for a human, the quota or the model, reserves the reply under a second unique index,
-- commits, sends, and confirms.
--
-- The parts:
--   Tokens       app/utils/tokens.py: the history that fits the model's budget.
--   Store        app/models/ and app/repositories/: the tables as lists of rows, newest first, and each
--                statement as a function from a database to a result and a database. Store/Conversations
--                has the sessions of a customer, Store/Messages the messages and the reservations,
--                Store/Users the customers.
--   Redis        the keys that the program keeps in Redis.
--   Floats       the floats of app/core/quota.py, by their order.
--   Quota        app/core/quota.py: limits of a customer, blocks, the daily spend and its alerts.
--   World        a worker: the durable database below the open transaction, Redis, the calls of the
--                send methods, the published events, and the monad in which the services are written.
--                World/Keeps and World/Leads are the rules by which an invariant, or a condition
--                before and after, goes through a do block; World/Runs are those for an action
--                that returns.
--   Chat         app/services/chat_service.py, app/core/idempotency.py, and what they use of
--                conversation_service.py and session_service.py. Chat/Send has `_send_once` and the
--                methods on it, Chat/Generate the model's reply, Chat/Handlers the handlers.
--                Chat/Tolerance is the interface of an invariant of the service: what it asks of
--                the session and of a send. Chat/Reservation fills it for the answers to one message.
--   Webhook      app/services/webhook_processor.py and stale_inbound.py: dispatch, freshness, attempts.
--                Webhook/Payload reads the JSON of the WhatsApp API, Webhook/Process has the loops over it.
--   Sessions     app/services/session_service.py: the sweep of idle sessions. Sessions/Goodbye counts the
--                goodbyes to one session, Sessions/Closing follows a sweep in which nothing dies.
--   Replies      app/services/reply_service.py: the replies of operators, with their refusals as values.
--   Takeover     app/services/admin_service.py: who answers a conversation, changed by an operator.
--   Invites      app/services/comment_invite.py: the private invitation that follows a comment.
--   Auth         app/services/auth_service.py: operators, their logins and their sessions.
--                Auth/Lifecycle is the state machine of one token.
--   Channels     app/channels/constants.py, config.py, registry.py and outbound.py: which channels are on
--                and configured, and which adapter carries a message.
--   Chunking     app/core/chunking.py: the windows of a long paragraph, and the packing into chunks.
--   Retrieval    app/services/retrieval.py: the documents that fit the budget of the context.
--   Menu, Json, Settings   app/services/menu.py, the JSON of the responses, app/config.py.
--   Examples     a concrete service, and the theorems at concrete inputs.
--
-- The environment is a parameter (`Outside`): at each tick it says what the clock shows, whether the
-- worker is killed there or the database raises, whether Redis fails, and what the APIs return. The
-- classifiers and the texts of persona.py, intent.py, greeting.py, handoff.py and price_policy.py, the
-- count of tokens, the hash of a text, and Python's `int` and `str` of a JSON value are parameters too.
--
-- Bounds: times are natural numbers of seconds, prices and spends are floats, whose
-- rounded arithmetic is a parameter (Floats); Python's integers are
-- unbounded, so no number wraps. Loops are structural recursion, but for `_windows` of chunking.py,
-- whose turns are bounded by the number of tokens, which is enough for a positive step. Workers
-- run one after the other: the statements that race in the program do so on unique indexes, and
-- their losing branches are in the model.
--
-- Not modelled: the parsing of the payloads of the other channels, the ingestion of files, analytics,
-- pushes, the routes, and the clients in dashboard/ and mobile/.
pub mod Prelude
pub mod Tokens
pub mod Floats
pub mod Json
pub mod Sessions
pub mod Takeover
pub mod Settings
pub mod Redis
pub mod Auth
pub mod World
pub mod Store
pub mod Quota
pub mod Menu
pub mod Channels
pub mod Chat
pub mod Chunking
pub mod Retrieval
pub mod Replies
pub mod Invites
pub mod Webhook
pub mod Examples
