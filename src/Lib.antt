-- ===== src/Lib.antt =====
-- Verification of the stock aggregator: the fundamentals scoring of src/screener/scoring, the
-- live-stream capture of src/screener/skybird, the authorization server of src/screener/mcp, the
-- reconciliation of src/screener/universe and the request chain and exits of src/screener/fetch.
--
-- Scoring turns a security's reported facts into ratios and ranks them. basis.py splits the facts by
-- currency and finds flows over twelve months, balances and a market cap; ratios.py computes each
-- ratio from them, or the reason that it is absent; percentile.py places a value in a group; and
-- ranking.py chooses the group, a peer group that is large enough or else the whole market.
-- metrics.py has the momentum of a security, adjust.py turns stored closes and corporate actions into
-- an adjusted series, and pillars.py and blend.py turn percentiles into a pillar's score and pillars
-- into one snapshot.
-- Skybird captures live streams. store.py holds every statement on its tables, which are also the
-- control plane: the status service writes a row and supervisor.py, the capture loop, reads it,
-- starts a recorder, hears its chunks and accounts for them on the row. capture.py computes how far
-- behind live a capture starts.
-- Mcp is the OAuth server behind a connector. oauth.py decides: a client registers its callback, a
-- signed-in person approves and the client gets a one-time code, the code buys an access and a
-- refresh token, and each refresh buys the next pair. store.py holds the statements on the tables,
-- each of which commits by itself, so the requests of several threads are interleaved lists of them.
-- Universe compares the file of followed securities with the stored ones and plans what to change.
-- Auth keeps the sessions of signed-in people, and Nightly knows when a night's run is due.
-- Fetch tries one strategy after another for a request, and hands out exits in rotation.
--
-- Files and code:
--   Prelude            shared names; Tests, Lists, Rows, Dicts, Outcomes, Int, Calendar and the Decimal
--                      interface
--   Scoring.Basis      src/screener/scoring/basis.py: Facts (index_facts_explained, _by_date,
--                      _common_dates), Flow (ttm_basis, annual_basis, flow_basis), Balance
--                      (_balance_on, balance_at, newest_balance), Cap (explain_market_cap, market_cap)
--   Scoring.Ratios     src/screener/scoring/ratios.py: Classes (applicable, industry_class), Inputs
--                      (_basis, _newest, _at, _unavailable), Formulas (one function per ratio),
--                      Explain (explain_ratios, compute_ratios)
--   Scoring.Percentile src/screener/scoring/percentile.py: percentiles, deciles
--   Scoring.Ranking    src/screener/scoring/ranking.py: rank, in the steps of its loops
--   Scoring.Adjust     src/screener/scoring/adjust.py: _factor, adjusted_closes
--   Scoring.Momentum   src/screener/scoring/metrics.py: months_before, explain_momentum, compute, over
--                      the calendar of Prelude.Calendar
--   Scoring.Blend      src/screener/scoring/pillars.py and blend.py: score_pillar, blend
--   Mcp.Tables         the tables and statements of src/screener/mcp/store.py; Statements runs any
--                      list of them
--   Mcp.OAuth          src/screener/mcp/oauth.py: Asking (register, _read_ask, authorize, approve),
--                      Granting (token, _exchange_code, _exchange_refresh, _issue, bearer), with
--                      token_hash of src/screener/auth/session.py and permits of auth/config.py
--   Auth.Sessions      src/screener/auth/session.py: create_session, resolve_session, delete_session
--   Nightly.Schedule   src/screener/nightly/schedule.py: next_trigger, is_due
--   Universe.Reconcile src/screener/universe/reconcile.py: plan; slugify of rows.py
--   Fetch.Chain        src/screener/fetch/chain.py: fetch
--   Fetch.Lanes        src/screener/fetch/lanes.py: park, parked_for, acquire
--   Skybird.Session    the rows and states of src/screener/skybird/store.py
--   Skybird.Store      its statements; Steps has them as a relation on the tables
--   Skybird.Capture    rewind and chunk_seconds_of of src/screener/skybird/capture.py
--   Skybird.Supervisor src/screener/skybird/supervisor.py: Hearing (_account, _hear, _shed, _drain),
--                      Connecting (_connect_stream, _begin, _advance, _stumble, _release), Ticking
--                      (tick, shutdown, _drop_connection)
-- A child module that names no code has the lemmas and the theorems on its parent.
--
-- Choices. A call that can raise is an Outcome, `ok` or `raised`; an absence that is a value is an
-- Option or an Explained. A dict is an association list in insertion order, and a tuple of facts
-- keeps its order. Python's Decimal is an interface (Prelude.Decimal): its number type, operations
-- and strict order are parameters, and the laws that a theorem needs are named records: division by
-- a positive number succeeds (DivLaws), the order is transitive and asymmetric (OrderLaws). Rounding
-- is inside those operations. Prelude.Decimal.Whole is an instance. Dates are day numbers; instants
-- and durations are microseconds, and a duration of audio is rounded down to one. An instant is never
-- before the epoch. Loops are structural recursion: no definition runs on fuel. The statements of a
-- transaction happen one after the other and none fails halfway; `now()` is an argument. The
-- identity of a new row is the next number, and rows that a query leaves in any order keep theirs.
-- During a pass of the supervisor what yt-dlp, ffmpeg, the transcriber and the clock answer is the
-- record Outside.
-- In Mcp and Auth instants are in seconds, a request happens at one instant, and hashing, the parsing of
-- addresses and queries and the environment are the record Env; what secrets draws is an argument.
-- An answer of the server is a Response without its bytes. Regular expressions are the record Regex,
-- and what a fetch strategy answers is an argument, the same each time that it is named.
--
-- Not modelled: the SQL reads and writes around the scoring (src/screener/scoring/run.py) and the
-- reading of peer groups; the recorder process and the playlist reader of capture.py; the
-- connection, the advisory lock, the signal loop and the log lines of supervisor.py; the platform
-- adapters; the HTML and the discovery documents of oauth.py; the statements of
-- src/screener/universe/load.py; the HTTP clients of src/screener/fetch and the threads of across; the
-- rest of the repository (servers, bots, crawlers, ingest, configuration, web front end), which is
-- input and output or is left for later.
pub mod Auth
pub mod Fetch
pub mod Mcp
pub mod Nightly
pub mod Prelude
pub mod Scoring
pub mod Skybird
pub mod Universe
