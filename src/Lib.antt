-- ===== src/Lib.antt =====
-- BuildBee (github.com/codemodify/buildbee): a server on which people and the Bots of a Project
-- work on Tasks. A Task is handed from Bot to Bot; a Bot's work on it is a Run, which waits in a
-- queue until the Bot's agent, a process on some machine, claims it, keeps the claim alive by
-- heartbeats and reports the outcome. What a Run's end sets off is autopilot's: the next handoff, a
-- review, a merge, or a question to people, a Decision. Every operation is one database
-- transaction, whose events go to live subscribers over WebSockets.
--
-- The parts, by module:
--
-- Base: lists, sorting, tests and results that the others share. Text: Go strings as bytes (text,
-- truncate, validCommit of internal/core; the functions of strings, unicode and utf8 that the code
-- uses, written out for UTF-8), internal/httpapi/sanitize.go in Text.Sanitize, and in Text.Urls what
-- internal/core/projects.go takes for a repository and an image, with regular expressions
-- (Text.Regex) matched by derivatives.
--
-- Models: internal/models/models.go. Statuses and kinds are data types with the words that stand
-- for them; the records have the struct's fields, with the columns of their tables.
--
-- Event and Hub: core.Event, and internal/ws/hub.go. Hub.Client is one connection (deliver,
-- enqueueLocked, the critical sections of subscribe, writeLoop), Hub.Server the index of topics
-- (Publish, attach, subscribe, unsubscribe, detach). The JSON encoding of an event is a parameter.
--
-- Agent: internal/agent/acp. Agent.Sink is sink.go: the goroutine is a loop over what its select
-- reads, and the Handler is a parameter. Agent.Rpc is rpc.go: the critical sections of conn are steps
-- of its state, in any order; JSON is left out, and a channel is known by the number of its call.
--
-- Store: internal/store. A table is the list of its rows, an operation a function from the
-- transaction's state, the record Work (the struct work of internal/core/core.go), to an error or a
-- value and the new state. SQL is written out: WHERE as a test, ORDER BY as a sort, SKIP LOCKED as
-- a test on the rows that others hold. Store.Runs has the queue (internal/store/runs.go),
-- Store.Tables the other tables; Store.Grows says how the database may change, and Store.Keeps has
-- a rule for each way to build an operation that changes it so.
--
-- Core: internal/core. Core.Work is core.go and inbox.go, Core.Thread what chat.go does in a Task's
-- thread, Core.Prompt the prompt of a Run, Core.Queue queue.go and the queueing of runs.go,
-- Core.Decide decisions.go, Core.Pilot autopilot.go and the handoff of tasks.go, Core.Report
-- ReportRun, ReapRuns and AnswerDecision. Core.Tasks is tasks.go; Core.Ask the questions of
-- decisions.go; Core.Steer the Runs that people start and steer (runs.go, chat.go); Core.Chat
-- chat.go; Core.Ci the CI checks of runs.go; Core.Members (who comes and goes, Channels) and
-- Core.Projects (Projects, their settings, new and changed Members) projects.go; Core.Routines
-- routines.go. Core.Publish is tx and inTopicOrder of core.go, Core.Presence presence.go. Core.Calls
-- lists the operations as calls, Core.Grows applies the rules of Store.Keeps to each of them, and
-- Core.History takes committed calls for steps.
--
-- Examples: the theorems at concrete inputs.
--
-- No fuel is needed but for the decimal digits of a number, where the number itself is enough:
-- every loop of the code is over a list. Parameters: uuid.NewString, the clock, the rows that other
-- transactions hold, the fingerprint of a question (DecisionFingerprint, which needs the Unicode
-- classes), strings.ToLower where a text may be no ASCII, SQL's lower, the classes of letters and
-- numbers and of characters that can be printed, time.ParseDuration, Time.Format, and GitHub's list
-- of Issues. A time is a number of nanoseconds.
-- Foreign keys are checked for Runs; for other rows the operation has read what they refer to.
--
-- Not modelled: HTTP, the agents' processes and containers, storage of files, GitHub, migrations,
-- opening and closing direct messages, read markers, a Run's events as its agent sends them, the
-- dashboards and the listings; the files that are listed with a message or a claim.
pub mod Base
pub mod Text
pub mod Models
pub mod Event
pub mod Hub
pub mod Agent
pub mod Store
pub mod Core
pub mod Examples
