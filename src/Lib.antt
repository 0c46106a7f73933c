-- ===== src/Lib.antt =====
-- AgentCortex: the rate limiter of pkg/ratelimit, the session manager of internal/session, the memories of
-- internal/transport/http, internal/memory and internal/utils, the clients of internal/model and
-- internal/embedding, the terminal session of internal/cli, and internal/config.
--
-- The program is an HTTP service that keeps memories of an agent and streams a model's answers, with
-- a command line client. These parts are modelled:
--
-- * The rate limiter (RateLimit). A limiter keeps one small state per key in a store of shards, each a
--   map behind a mutex. `AllowN` checks its context and size, asks the store for the state of the key,
--   lets the algorithm decide on it, and reports to an observer.
--     RateLimit/Types.antt          pkg/ratelimit/ratelimit.go, errors.go: types, defaults
--     RateLimit/Store.antt          pkg/ratelimit/sharded_state.go: `WithEntry`, `Reset`, the cleanups
--     RateLimit/Limiter.antt        `AllowN`, `Reset`, `ResetContext`; the calls of metrics.go as a log
--     RateLimit/Registry.antt       pkg/ratelimit/ratelimit.go: `Register`, `NewLimiter`
--     RateLimit/SlidingWindow.antt  pkg/ratelimit/sliding_window.go
--     RateLimit/BucketedWindow.antt pkg/ratelimit/bucketed_sliding_window.go
--     RateLimit/Gcra.antt           pkg/ratelimit/gcra.go
--     RateLimit/TokenBucket.antt    pkg/ratelimit/token_bucket.go
--   Below them: Store/Map, Shards, Cleanup, Access, Put, Swept, Visit, Guarantees and Served;
--   SlidingWindow/History, Exact and Runs; BucketedWindow/Total; TokenBucket/Bounds; Gcra/Conform, Rate and Retry;
--   Limiter/Observed and Registry/Lookup. RateLimit/Examples.antt, CallExamples.antt and
--   TokenExamples.antt hold concrete runs.
--
-- * Sessions (Session). A session is a goroutine that reads a model's stream and sends events into a
--   bounded channel; the manager owns the sessions by identifier.
--     Session/Types.antt      internal/session/session.go, event.go, errors.go, and the stream events
--                             of internal/model/client.go
--     Session/Goroutine.antt  internal/session/manager.go: `runSession`, `send`, `sendTerminal`,
--                             `finish`, one step at a time
--     Session/Manager.antt    internal/session/manager.go: `NewManager`, `Start`, `Interrupt`,
--                             `Status`, `CleanupExpired`, `Close`
--   Below them: Goroutine/Protocol, Capacity, Outcome, Turns, Draining and Stuck; Manager/Sessions, History,
--   Registration, Cleanup and Closing. Session/Examples.antt holds concrete runs.
--
-- * Memories (Http, Memory, Files). A memory is a question with its answer. It is written first into the
--   file of its user, agent and day, as an entry between two markers, and then into the storage; a
--   search asks the storage and shows what the files say. A question's handler streams the model's
--   answer and saves the turn as a memory.
--     Http/Ids.antt              internal/transport/http/memory_markdown.go: identifiers and places
--     Http/Markdown.antt         the entries as text
--     Http/Markdown/Parser.antt  `memoryMarkdownEntriesByID`
--     Http/MemoryFiles.antt      reading, finding and writing entries on the disk
--     Http/Save.antt             internal/transport/http/handler.go: `saveMemory`
--     Http/Search.antt           handler.go: `replaceSearchContentFromMarkdown`
--     Http/Qa.antt               handler.go: the loop of `qaStream`, `persistQATurn`
--     Http/Sse.antt              internal/transport/http/sse.go: the bytes of the events
--     Http/Handlers.antt         handler.go: `createMemory`, `searchMemory`, `qaStream`
--     Http/Request.antt          internal/transport/http/request.go
--     Http/Status.antt           internal/transport/http/errors.go
--     Memory.antt                internal/memory: `Service`, over a storage that is a parameter
--     Files.antt                 internal/utils/markdown.go, on a disk of folders
--     Errors.antt                the sentinel errors of these packages, `errors.Is`, `errors.Join`
--   Below them: Markdown/Frame, Reads, Append, RoundTrip and Panics; MemoryFiles/Writes; Save/Outcomes and
--   ReadBack; Search/Fresh; Qa/Frames, Persisted and Broken; Handlers/Replies; Request/Accepted; Memory/Checks;
--   Files/Laws. Http/Samples.antt, Examples.antt, SaveExamples.antt and StoreExamples.antt hold concrete
--   runs.
--
-- * The terminal session (Cli). It keeps a conversation, sends it with every question to the server and
--   shows the events that come back.
--     Cli/Client.antt        internal/cli/client/http_client.go, errors.go
--     Cli/Conversation.antt  internal/cli/session.go
--     Cli/App.antt           internal/cli/app.go, io.go
--   Below them: Client/Decode and RoundTrip, against Http/Sse; Conversation/Accepted, against Http/Request;
--   App/Answers, Shown, Requests, Full, and EndToEnd, from the server's loop to the session's answer.
--   Cli/Examples.antt and AppExamples.antt hold concrete runs, on the encoding of SampleJson.antt.
--
-- * The model's client (Model). It checks and converts a request, and reads replies, whole or streamed.
--     Model.antt                 internal/model/client.go
--     Model/Wire.antt            the types at the end of internal/model/openai_compatible.go
--     Model/OpenAi.antt          openai_compatible.go: the request
--     Model/OpenAi/Replies.antt  openai_compatible.go: `Generate`, `Stream` and what they read
--     Model/Providers.antt       internal/model/provider.go, `NewOpenAICompatibleClient`
--   Below them: OpenAi/Calls, Accepted, Questions, against Http/Request, and Events. Model/Examples.antt
--   holds concrete runs.
--
-- * Embeddings (Embedding). A text becomes a vector, by a llama.cpp server that the program may start.
--     Embedding.antt            internal/embedding/embedder.go, the configuration of provider.go
--     Embedding/Llama.antt      internal/embedding/llamacpp.go
--     Embedding/System.antt     internal/embedding/llamacpp_managed.go: the download of a model's file, the start of
--                               a process and the wait for it, on system calls that are a parameter
--     Embedding/Managed.antt    llamacpp_managed.go: the choice of the model's file, the launch
--     Embedding/Providers.antt  internal/embedding/provider.go
--   Below them: Checked, against internal/memory, and Examples with concrete runs.
--
-- * The configuration (Config): internal/config/config.go, and Config/Precedence.
--
-- Strings.antt and Decimal.antt are what the code uses of Go's packages strings and strconv,
-- Scanner.antt of bufio, Json.antt of encoding/json on flat objects, TimeFormat.antt the texts of times,
-- Prelude the shared names, lists and integers.
--
-- How the code is read. A text is the list of its bytes. An int and a duration are signed integers
-- that wrap at 64 bits where the code computes with them (add64, sub64, mul64); a time is its number of
-- nanoseconds since the Unix epoch, without Go's limit on seconds, and `Time.Sub` saturates as in Go.
-- A Go map is an association list; where the code ranges over a map and stops early, the order is an
-- argument that may be any permutation. A method that locks runs as one step; two calls of the rate
-- limiter do not interleave. A session's goroutine, its stream, its consumer, its context and the
-- manager's calls interleave freely, one action at a time; an action that cannot happen leaves the
-- session as it is. A channel is its capacity, its content and what has been received. `Close` of a
-- manager cancels right after its locked part. Clock readings are arguments. In the GCRA limiter the
-- floating-point quotient behind `remaining` is a parameter, of which nothing is assumed.
--
-- A handler's call runs as one step, in the order of its code, on a disk and a storage that it passes
-- along; which calls of package os fail, and with what, is an argument, and a write that fails has
-- written some of its bytes. The storage is a record of operations, the embedder and the model's
-- streamer are functions, Go's formatting of times is a record of functions with laws (TimeFormat). A
-- parse ends in a value, an error or a panic, since a Go slice expression may be out of range. What the
-- loop of a question sees of its context, ticker and stream is a list, in the order of its `select`;
-- which writes to the client get through is an argument.
--
-- The clients stand on parameters for what is not the program's: encoding/json (a record with laws on
-- flat objects for the events, a record of functions without laws for the model's replies), the sending
-- of a request, the failures of a terminal's writes, float64 in the token bucket (a record of operations,
-- with laws on order and signs), the system's calls around the managed embedder, YAML and the
-- environment of the configuration. A body is its bytes and the error behind them, if it breaks off; a
-- line that does not fit the scanner's buffer ends the scan.
--
-- Loops are structural recursion over the lists they visit, but for the parser of memory files and the
-- digits of a number, which run on fuel: the length of the text and one, the number and one. The wait for
-- a process is over finitely many dials, since its context has a timeout. Theorems on the store
-- ask for fewer than 2^63 entries, and those on GCRA for a burst times interval below 2^63
-- nanoseconds, so that the counters do not overflow.
--
-- Not modelled: the web framework's binding of requests, headers and routes; two handlers at work at
-- once; the SQL store; the hashing of the static embedder; a context that is cancelled while a body is read, which only cuts the events short;
-- start-up and process entry points. They are input and output to a large part, or stand outside the
-- parts above.
pub mod Prelude
pub mod Strings
pub mod Decimal
pub mod Errors
pub mod Json
pub mod Scanner
pub mod TimeFormat
pub mod Files
pub mod Config
pub mod Memory
pub mod RateLimit
pub mod Session
pub mod Embedding
pub mod Model
pub mod Http
pub mod Cli
