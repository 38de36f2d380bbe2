-- ===== src/Lib.antt =====
-- Synapse Canvas, the Python services: a workspace shares documents that are edited live, with an AI
-- that proposes text. This library models the services' own logic and proves what they rely on.
--
-- The parts and how they meet:
--   * ProseMirror (ProseMirror.antt; Utf16, Node, Tokens, Blocks, Edit below it) is
--     api/services/prosemirror.py. A document is a `Node`, a text the list of its code points, a
--     position the count of UTF-16 code units that the editor uses. `replace_selection` and
--     `insert_after` compute the edit that a response becomes, with the step that peers replay.
--   * Document (Document.antt; Log, Head) is api/services/documents.py with the rows of
--     api/models/document.py and document_change.py: `apply_change`, the one write path, with
--     `create_document`, `update_document` and `delete_document`. Its version is a compare-and-set.
--   * Queries (Queries.antt; Rows, Budget, Final, Apply) is api/services/ai_queries.py and ai_usage.py: the
--     limits of a workspace (`enforce` as `judge_usage`, `expire_abandoned`), the rows (`finish`)
--     and `apply_query`, which hands an edit of ProseMirror to `apply_change` of Document.
--   * Realtime (Realtime.antt; Presence, Hub, Session, Tickets) is api/realtime/session.py and hub.py,
--     api/services/presence.py and ws_tickets.py, and the handshake of api/routers/realtime.py:
--     `EditorSession.run` over the frames of a socket, whose edits go to `apply_change` too. What
--     others write between two frames is a function of the state.
--   * Sources (Sources.antt) is api/services/sources.py and the rows of api/models/source.py,
--     source_chunk.py and source_text.py: uploads, retries and deletions. Below it, Ingestion and
--     Batching are api/services/ingestion.py: `process` runs `chunk_text` of Chunking on what was
--     extracted and embeds the passages in batches; Pages is `_join_pages` of
--     api/services/extraction.py. Grouping, Sending, KeptText, Stored, Progress, Room, Ready, Bytes,
--     Keeps and Quota are about them.
--   * Generation (Generation.antt; Runner, Resume, Whole, Once, Closing, Deadline, Published) is
--     api/services/ai_buffer.py, ai_stream.py and ai_runner.py: a generation is relayed from its
--     provider to a Redis stream, `follow` reads the stream for one client, and the row is ended by
--     `finish` of Queries.
--   * Retrieval (Retrieval.antt; Loop, Choice) is api/services/retrieval.py, over the tables of
--     Sources; Retrieval.Citations is api/services/citations.py, which resolves an answer's markers
--     against the passages found; Retrieval.Requests is api/services/embedding_usage.py (Attempts) with
--     api/models/embedding_request.py.
--   * Html (Html.antt; Safe, Attributes, Output) is api/services/prosemirror_html.py; Safe is the grammar of
--     what may be printed.
--   * Workspace (Workspace.antt; Members, Ownership, Access) is api/services/workspace_service.py, the roles
--     of api/models/enums.py and `WorkspaceAccess` of api/dependencies.py.
--   * Auth.Sessions (Families, Outcomes, Lowering, Rotation, Reset) is the refresh tokens of
--     api/services/auth_service.py; Steps takes a refresh apart into its checks and its two commits,
--     with Settling and Serial below; with them `get_current_user` of api/dependencies.py and `reset_password` of
--     api/services/password_reset.py, which ends the sessions of an account.
--   * Auth.Verification (Guesses) is the emailed codes of the same file: `verify_email` and
--     `issue_verification_code`. Wrong guesses draw on the table of RateLimit too.
--   * RateLimit (Counting, Windows) is api/services/rate_limit_service.py.
--   * Chunking (Packing; Chains, Units, Cut, Passages, Coverage) is api/services/chunking.py, with
--     its four patterns: extracted text is cut into units, and the units packed into passages.
--   * Prompts (Budget) is the cuts of api/services/prompts.py: `_keep_ends`, `_around_selection`.
--   * Base has the Boolean tests, the lists on native numbers with the laws of counting and searching,
--     the comparison of texts, and `Dict`, the rows of a table, the fields of a Redis hash or the
--     entries of a Python dict, under numbers.
--
-- Conventions. A transaction takes the tables and gives the new tables with a result, so that a
-- rollback is the tables as they were; where the code takes a lock, concurrent calls are a sequence,
-- and the interleavings are the sequences of a step relation (`Reach`). A refresh of tokens takes
-- none, and its commits are steps of their own. The ids of `uuid4`, the clocks and
-- the frames of a socket are arguments. UUIDs, times, emails and colours are numbers. Where Python
-- raises, the result names the error.
--
-- Outside code is a parameter: the tokenizer that chunking counts with, what pydantic makes of a
-- frame, what the JWT library makes of a token, the hashes of codes, tickets and passages, what
-- extraction makes of a file, the replies of the providers of models and embeddings, which rows the
-- database takes for the nearest, the words of a text, the Unicode digits, and which sockets fail in
-- a delivery.
--
-- Loops. `bisect`, `cut`, `spans_from` and `verified` of Chunking take fuel: the length of the
-- stretch, of the list of units, or of the units left, which their callers pass. That is enough
-- because a round of each leaves fewer characters or units than it had. For the same reason
-- `batches` of Sources.Batching takes the number of groups, `group` and `find_numbers` of
-- Retrieval.Citations the length of the text, and `digits` of Html the number of digits. A `for` over
-- attempts, and the reads of a stream, are by recursion on the number of attempts or the list of
-- reads. All other loops are by recursion on the list or the number that they go through.
--
-- Not modelled: the Word and PDF conversions, the checks of uploaded files and the viewer of sources,
-- email, the clients of model providers, the routes, the settings and the wiring, which are mostly
-- calls of libraries; the Redis relay between processes and the expiry of keys by Redis; and, so
-- far, the wording of prompts and the codes of a password reset.
pub mod Auth
pub mod Base
pub mod Chunking
pub mod Document
pub mod Generation
pub mod Html
pub mod Prompts
pub mod ProseMirror
pub mod Queries
pub mod RateLimit
pub mod Realtime
pub mod Retrieval
pub mod Sources
pub mod Workspace
