-- ===== src/Lib.antt =====
-- SupportFlow, the help-desk backend under backend/app: a verification library of its core
-- services.
--
-- A request reaches one service function with a database session and the caller's identity. The
-- function reads and writes the session, commits, and then tells the outside world: it queues
-- emails and analyses, publishes to sockets and drops a cached aggregate. The model is that shape.
-- Db has the tables of backend/app/models as records of the columns that are used, and one database
-- state. Session has the request: a World is the committed state, the open transaction and the list
-- of effects so far, App is a call that returns a value or raises an error of Errors in a new
-- world, and `request` is get_db, with its rollback when a call raises. A uuid is a number, an
-- instant a number of microseconds; the time of a request is an argument.
--
-- Enums, Permissions, Errors and Tenancy follow models/enums.py, core/permissions.py,
-- core/exceptions.py and core/tenancy.py. Scope is the row scope of repositories/scoping.py with
-- the lookups that apply it. Realtime is websocket/events.py with the publishing half of
-- websocket/manager.py, Realtime/Connections its other half: the registry of the sockets of a
-- process, their outbound queues and the writer of each, as turns that the event loop takes one
-- after the other.
--
-- Audit, Notifications and Analysis are the helpers that a ticket call composes:
-- services/audit_service.py, notification_service.py and the queueing half of
-- ai_analysis_service.py. Tickets is services/ticket_service.py: the calls on an existing ticket in
-- Tickets and Tickets/Assignment, the creation in Tickets/Creation, the timeline in
-- Tickets/Timeline; Tickets/Calls puts the five calls on an existing ticket under one data type,
-- and its child modules prove what all of them have in common.
--
-- Text is Python's str, a list of code points, with the UTF-8 codec, and Document is
-- services/document_text.py: cleaning in Document/Clean, HTML in Document/Page, extraction in
-- Document/Extract, the cuts and the chunks in Document, with what is proved of them in
-- Document/Cuts, Segments, Passages and Sizes. AiCalls is services/ai_service.py with
-- ai/pricing.py: one call of a provider, its retries and its rows in the ledger. Knowledge is
-- services/knowledge_service.py with repositories/knowledge_repository.py: the requests in
-- Knowledge, the worker in Knowledge/Ingestion, the search in Knowledge/Retrieval, the answers in
-- Knowledge/Answer; Knowledge/Creation, Outcomes, Requests and Grounding are about them in that
-- order. FileValidation is core/file_validation.py and UrlFetch is services/url_fetch.py.
-- Analysis/OnDemand has the requests for a summary and for a reply, with what is proved of them in
-- Analysis/Freshness and InFlight; AnalysisRun is the worker's half of
-- services/ai_analysis_service.py with the claims of repositories/ai_repository.py;
-- AnalysisRun/Rows says what its writes leave alone, for the proofs beside it.
--
-- Sla is services/sla_service.py: the clock in Sla, the recorded and due alerts in Sla/Alerts, the
-- targets in Sla/Policies, what the API shows in Sla/Display; Sla/Sweep is workers/sla_tasks.py
-- with repositories/sla_repository.py. Messages is services/message_service.py, Auth is
-- services/auth_service.py, Users is services/user_service.py, RateLimit is core/rate_limit.py.
-- Functions keep the source's names; a leading underscore becomes a trailing one (`_transition` is
-- transition_), and a function whose guards and writes are proved apart has helpers for them.
-- Examples has the tests, one desk with a second tenant.
--
-- A loop over rows is structural recursion. The one loop on fuel, the cutting of a long sentence,
-- is given as much fuel as the sentence has characters, and each round removes at least one. The
-- attempts of a call to a provider and the rounds of a fetch are counted as the source counts them.
-- An attempt ends with an answer or with one of the errors of ai/errors.py, as its interface
-- documents; an exception of another class, which run_analysis leaves uncaught, is not an outcome
-- of the model's attempts. A query is a selection from a list, with its ORDER BY by insertion and
-- its LIMIT as take. The identity map writes a changed row back by its primary key. The numbers are
-- unbounded where PostgreSQL has integers of fixed width; the schema keeps the minutes of a target
-- below a year. Transactions are serial: the advisory lock of a ticket number and the row lock of a
-- refresh token are taken as effective, and concurrent requests are not interleaved.
--
-- Parameters: pwdlib, hashlib and pyjwt in Auth, by the record Security, with the random token as
-- an argument, and pwdlib's hash in Users; Redis in RateLimit, by a record of its commands whose
-- documented behaviour is the hypothesis IsDocumented; pypdf and the tokenizer of html.parser in
-- Document, by the record Readers; the AI providers, by the answer to each attempt, with OneEach
-- for the vectors of a batch; pgvector's search, with IsSearch; urllib, the resolver, ipaddress and
-- httpx in UrlFetch, by the record Network; pathlib and the category Cf in FileValidation; the
-- stored object and pathlib's suffix in Knowledge, by the record Sources; the model of a stored
-- analysis, whose column is left out, by made_by.
--
-- Not modelled: configuration, logging, HTTP routes, SMTP, Celery, Redis and socket I/O beyond the
-- effects named above, prompts, confidences, uploads and the searched list of the knowledge base,
-- attachments, analytics, customer administration, registration, and the searched and paged ticket
-- list.
pub mod Prelude
pub mod Enums
pub mod Permissions
pub mod Errors
pub mod Tenancy
pub mod Text
pub mod Document
pub mod Db
pub mod Scope
pub mod Realtime
pub mod Session
pub mod Audit
pub mod Notifications
pub mod AiCalls
pub mod FileValidation
pub mod UrlFetch
pub mod Knowledge
pub mod Analysis
pub mod AnalysisRun
pub mod Tickets
pub mod Sla
pub mod Messages
pub mod Auth
pub mod Users
pub mod RateLimit
pub mod Examples
