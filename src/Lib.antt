-- ===== src/Lib.antt =====
-- Verification of the TypeScript code of Farfield: the SDK under sdk/typescript/src and the
-- parts of the viewer under server/ui/src that compute.
--
-- Farfield records what agents do. Code that is instrumented makes events; the SDK completes and
-- checks them (client.ts), sends them in segments of one conversation, at once or from a queue in the
-- background (processor.ts), over requests that are tried again. Adapters make such events from the
-- hooks of the Claude Agent SDK and from the traces of the OpenAI Agents SDK (integrations). The
-- viewer reads the records back, groups them into sessions, blocks and operations, and shows those
-- that a query and a few switches choose.
--
-- The files and the code that they model:
--   Base            strings, ordered maps and lists of JavaScript
--   Sdk/Types       types.ts: scopes, events, values
--   Sdk/Scope       client.ts: cloneScope, mergeScope, #activeScope, withConversation
--   Sdk/Json        client.ts: validateJson and the check of encode, on a heap of objects
--   Sdk/Client      client.ts: prepareEvent and its privacy hook; errors.ts
--   Sdk/Options     client.ts: the constructor of Farfield
--   Sdk/Batch       client.ts: capture, captureBatch, capturePreparedBatch, Conversation, Batch
--   Sdk/Queries     client.ts: query, search, getRecord, conversations, timeline, validateLimit
--   Sdk/Calls       client.ts: those calls with the requests that they make, and health
--   Sdk/Request     client.ts: #request with retries, retryDelay, apiError, decode, wait
--   Sdk/Processor   processor.ts: BackgroundProcessor
--   Integrations/Payload, Ids   the helpers that both adapters have
--   Integrations/Claude         integrations/claude-agent-sdk.ts
--   Integrations/OpenAi         integrations/openai-agents.ts
--   Ui/History      server/ui/src/lib/history.ts; Analysis is analyzeSession
--   Ui/Review       server/ui/src/lib/conversation-review.ts
--   Ui/Titles, Operations       server/ui/src/lib/trace-operations.ts
--   Ui/Filter       server/ui/src/lib/timeline-filter.ts: queries, quoting and contexts
--   Ui/Compare, Match           server/ui/src/lib/timeline-filter.ts: comparisons, and whether an
--                   entry matches a query
--   Ui/Format       server/ui/src/lib/utils.ts: formatDuration, shortID
--   Ui/Activity     server/ui/src/lib/activity.ts, server/ui/src/components/activity-overview.tsx
--   Ui/Sessions     server/ui/src/components/session-list.tsx, titleFromID, promptTitle
--   Ui/App          server/ui/src/app.tsx: the state of the viewer and its requests
--   Ui/Fetch        server/ui/src/lib/history.ts: readJSON, fetchConversations, fetchTimeline
--   Ui/Inspector    server/ui/src/components/trace-inspector.tsx: the view of a session, its address
--                   and its keys
--   Ui/Query        server/ui/src/components/trace-inspector.tsx: how the query is edited
--   Ui/Panels       server/ui/src/components/trace-inspector.tsx: the panels of records and operations
--   Ui/Demo         server/ui/src/lib/demo-data.ts
--   Ui/ReviewView   server/ui/src/components/conversation-review.tsx
--
-- State and steps. The processor is a record of its private fields; every stretch of code that runs
-- between two awaits is one function on it, and a schedule is a list of steps, so that submissions,
-- timers, answers, flushes and shutdowns interleave in every order. The exporter's loops take a turn
-- for each trace: what the signal says, what prepareEvent and capturePreparedBatch answer. A request
-- takes a script of what fetch and the timers do. The viewer's state is a record of its hooks; setters,
-- effects and the answers of its requests are the steps of a relation, in every order that the effects
-- allow. Errors that the code throws are values of Result.
--
-- Bounds and fuel. The check of a value runs on fuel of one more than the objects of its heap, which
-- is enough since no object is below itself twice. The loop of flush runs on the rounds that the
-- queue needs. A request makes at most one attempt more than maxRetries, which is what it recurses on.
-- All other loops are structural.
--
-- Given from outside: the random ids, the clock and the parser of dates, the privacy hook, SHA-256,
-- JSON.stringify of an object, the place of a tree in the heap, toLowerCase, the text and the sum
-- of numbers that are doubles, their products, the number that digits stand for, the case rules of
-- a RegExp, the time of a date, the calendar of the place, the encoding and the parser of URLs, the
-- scenarios of the demonstration and the times of their entries; what JSON.parse gives. A theorem
-- about valid ids assumes that a digest is 64 hexadecimal digits.
--
-- Not modelled: the order that an engine gives to keys which look like integers; the difference of
-- a property that is undefined and one that is absent; properties of Object.prototype read through
-- a key; options of the client with a fraction, and requests of a client whose retries or delay are
-- infinite or NaN; an export or a flush of the exporter that begins while another one waits; delays
-- finer than a millisecond; ids with lone surrogates in a path; the markup of the viewer, its focus
-- and clipboard; the Go and Python code.
pub mod Base
pub mod Integrations
pub mod Sdk
pub mod Ui
