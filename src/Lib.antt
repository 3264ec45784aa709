-- ===== src/Lib.antt =====
-- whatsvault is a local, single-user vault of WhatsApp messages. A model may read it and prepare
-- drafts; a message leaves only after a phone has signed an approval, and a public deployment hands
-- out read-only tokens after an approval at the terminal. This library models the parts that decide.
--
-- The approval chain, src/whatsvault/approval/*.py, works on the tables of control.db. The files:
--   Approval/Schema      the tables (db/migrations/control/0001_initial.sql and 0003), exceptions
--   Approval/Policy      policy.py: `evaluate`, the checks P1 to P7
--   Approval/Clock       clockguard.py: `ClockGuard.trusted_now`
--   Approval/Canonical   canonical.py: `encode`, the bytes that a phone signs; Injective, Bound
--   Approval/Devices     devices.py: enrolment, revocation, the lookup of active keys
--   Approval/Sender      sender.py: `execute_write` and `recover_startup`. `authorise` is the part
--                        before the transaction, `permit` the transaction, `post` and `settle` the call
--                        of the provider and its handlers; Authority, Durable, Posts, Once,
--                        Recovery, Rebound
--   Approval/Grants      capabilities.py and `sender.mark_read`; Bounds and Target
--   Approval/Drafts      drafts.py: `prepare`; Reuse
--   Approval/Relay       relay.py: `accept_envelope`; Idempotent
--   Approval/Reconcile   reconcile.py: `on_status_event`, `resolve`; Transitions
--   Approval/Templates   templates.py: `params_digest`, `upsert_from_sync`, `prepare_template`
-- The drafts that Drafts files are those that Sender sends; Relay files what the phone signed; the
-- attempts that Sender opens are those that Reconcile resolves; all use Devices for keys.
--
-- The authorization server, src/whatsvault/mcp/oauth.py, works on the tables of 0004_oauth.sql:
--   Oauth/Schema     the tables, the errors and the parts of Python's library that it calls
--   Oauth/Clients    `register_client`, `_client`, `_check_redirect`
--   Oauth/Authorize  `begin_authorization`, `collect_expired`, `approve`, `poll`; Pending, Collect
--   Oauth/Token      `_issue`, `exchange_code`, `refresh`, `_revoke_family`, `validate_access_token`,
--                    `revoke_all`; Exchange, Family
--   Oauth/Http       oauth_http.py: `OAuthApp.__call__` and its handlers; Answers
--
-- What a model reads, src/whatsvault/mcp, works on vault.db:
--   Mcp/Present  present.py: masks, opaque references, the wrapper of untrusted text
--   Mcp/Acl      acl.py: `set_visibility`, `local_only_ids`
--   Mcp/Reads    reads.py: `get_messages`, `list_chats`, `get_message_status`,
--                `get_conversation_window`; Fence
--   Mcp/Gate     http_auth.py: `BearerAuthMiddleware`, `PublicRouter`, and auth.py: `require_token`;
--                Passes
-- and rests on
--   Ingest/Status  ingest/status.py: `reduce_status`; Order
-- The consumer of the event queue, src/apps/ingest, fills vault.db and the windows of control.db:
--   Ingest/Payload   ingest/normalise.py: `split_webhook`, `classify`, `to_rows`
--   Ingest/Keys      ingest/dedupe.py and `normalise.semantic_key`
--   Ingest/Db        the tables that it writes
--   Ingest/Dlq       ingest/dlq.py: the quarantine and the circuit breaker
--   Ingest/Process   apps/ingest/consumer.py: `_process_payload` and what it calls, with
--                    `doctor.advance_window`; Keeps, Grows, Ledger, Windows
--   Ingest/Evidence  what `doctor.rebuild_window_from_evidence` finds; Rows, Refines
--   Ingest/Consumer  `drain_once`; Rounds, Acks, Fates, Tally
--   Ingest/Queue     apps/ingest/queue_client.py: `FakeQueue`; Held, Leases, Acked
-- The windows that the consumer advances are those that Sender's policy reads; an envelope of the queue
-- is opened by Sealed. A round of the loop of `drain_once` ends with the next one, by `break`, or by an
-- exception that no handler names.
-- SQLite's ORDER BY and LIKE are parameters of the reads.
--
-- The import of an exported chat, src/whatsvault/importers, writes the messages of vault.db too:
--   Import/Fingerprint  fingerprint.py
--   Import/Batch        whatsapp_export.py: the tables, the gates of `import_batch`, the parts of a line
--   Import/Write        the transaction of `import_batch`; Lines, Again
--   Import/Undo         `undo_batch`; Spares
-- It starts from the records that parse.py makes of a transcript.
--
-- The envelope of the edge relay, src/whatsvault/crypto/sealed.py, is Sealed, with its round trip in
-- Sealed/Roundtrip; the cryptography package's operations are the record Primitives there.
--
-- Base holds what these share: equality and tests (Eq), SQL statements on the list of a table's rows
-- (Table), bytes (Bytes), integers of either sign (Int), and a connection (Conn), which keeps what its statements see apart from what
-- was committed, so that a crash is a step back to the second. Crypto is the record of the operations
-- of Python's library and of the cryptography package that the chain calls: UTF-8, SHA-256, hex and the
-- verification of a P-256 signature. They are parameters, as are the random identifiers and secrets
-- and the provider's answer, which the operations take as arguments. What a theorem needs to know of
-- a parameter stands among its hypotheses, and the tests show a concrete instance.
--
-- Times are milliseconds, as natural numbers; those that a webhook brings go through Python's `int`,
-- so that the times of messages and of status events may be negative where they are stored and read;
-- the windows that `advance_window` writes start from 0. Each call of it
-- returns, or raises at the upsert or at the commit, as an argument says. No definition runs on fuel: every loop is over a list,
-- or, in `lease`, up to the number of messages asked for. `to_bytes` of a number that does not fit
-- its bytes raises OverflowError, and so does the model's encoding. An INSERT that breaks a key or a
-- CHECK is IntegrityError where the source can meet it; foreign keys that the code has just looked up
-- are not checked again.
--
-- Not modelled: full-text search and the rows of its index, the seal to a device and everything else
-- that is a call of a cryptography library, SQLCipher and migrations, SQL triggers, the bytes of HTTP
-- answers, the command line and the operation of the daemons, the grammar of transcripts, a process that
-- dies inside a drain, the doctor's repair of a window, and numbers beyond SQLite's 64 bits.
pub mod Approval
pub mod Base
pub mod Crypto
pub mod Import
pub mod Ingest
pub mod Mcp
pub mod Oauth
pub mod Sealed
