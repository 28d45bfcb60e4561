-- ===== src/Lib.antt =====
-- The verification library of cmdc2api, a proxy that serves the Anthropic Messages, the OpenAI
-- Chat and the OpenAI Responses protocols in front of the cmdc upstream.
--
-- A request goes this way. An inbound handler turns the client's request into an Anthropic one;
-- the Chat and Responses paths repair its tool calls (RepairToolPairing); BuildCcRequest makes the
-- envelope of cmdc from it. The upstream answers with NDJSON lines; the stream translator turns
-- them into Anthropic SSE events, which an encoder of the client's protocol turns into frames, or
-- an aggregator into one answer. Upstream errors are mapped to a status and an error type.
--
-- The files and what they model:
--   Base            names and list lemmas that all share, Go's `int` with its wrap-around at 64 bits
--                   (Base/Int), Go maps as association lists (Base/Maps)
--   Types           internal/types/anthropic.go (Types/Inbound, Types/Event) and
--                   internal/types/cmdc.go (Types/Cmdc); a nil pointer is `none`, raw JSON is its text
--   Content         internal/translate/request.go: parseBlocks
--   Pairing         internal/translate/pairing.go, each function under its name: repair_tool_pairing
--                   is RepairToolPairing, pair_tool_calls is pairToolCalls, and so on. Pairing/Spec
--                   says what a valid history is; Merge, Split, Results, Latest, Contents and Valid
--                   follow the phases, and Repair puts them together
--   Stream          internal/translate/stream.go: the record Translator is StreamTranslator, feed is
--                   Feed, one function for each case of its switch. Stream/Usage has DeltaUsage and
--                   Finish. Stream/Protocol is the client's view of the events as an automaton;
--                   Blocks and Ending relate the two, Reason and Verdict follow the stop reason, and
--                   Usage/Bill the token counts. feed_lines is the loop of serveStream
--   ChatOut         internal/translate/chatout.go: ChatEncoder, ChatAggregator and their helpers, and
--                   encodeAll of internal/server/pipeline.go at this encoder. ChatOut/Split has
--                   chatSplitRunes; ChatOut/Frames reads the frames as a client does, Readers
--                   and Agree compare them with the aggregator's completion
--   Request         internal/translate/request.go: BuildCcRequest. Its helpers are in Request/Shape
--                   (parseSystem, toolResultContent, imageToCc, ccCC), User (convertUser), Assistant
--                   (convertAssistant), Tools (convertTools, convertToolChoice, thinkingEffort) and
--                   Marker (synthesizeCacheMarker); Relay, Order, Breakpoint and Bounds prove
--   Aggregate       internal/translate/aggregate.go: feed_message is Feed and message_of is Message;
--                   Aggregate/Reading fills blocks from the events by index, Settle has the
--                   list lemmas, ByIndex the aggregator's run; ReadBack puts the blocks
--                   together as a client does, field by field, and compares
--   Errs            internal/errs/errs.go
--   Server          internal/server: Writer is the SSE writer of body.go, which holds frames back until
--                   the head is sent; Serve has serveStream and serveBuffer of pipeline.go for any
--                   outbound protocol, an EventEncoder or EventAggregator. Log sees the writer as a log
--                   with a flag, Started follows content_started; Response and Buffered give the whole response for
--                   a whole body, OneResponse and Responds every ending, Chat and Anthropic the two protocols. Body has
--                   readBody and getAPIKey, Handlers has runPipeline, handleMessages and
--                   handleChatCompletions; Answered shows that a request is answered
--   ChatIn          internal/translate/chatin.go, on the structs of Types/Chat
--                   (internal/types/chatcompletions.go): Convert has chatToRequest and ChatToRequestBody,
--                   User, Assistant and Content the blocks of the messages, Tools the tools and choices,
--                   Fields the fields without effect, Family aggregateRequestWarns. Sent
--                   follows each message's blocks through the repair, Blocks tells their calls and
--                   results, and Reported, Calls, Kept,
--                   Parallel, DataUri and Families prove
--   RespOut         internal/translate/respout.go, on the events of Types/Responses
--                   (internal/types/responses.go): Machine has responsesOut and how steps are put
--                   together, Steps the starts of items and their ends, Deltas the rest; Numbers proves
--   Session         internal/masq/session.go; Entries has its map, Sticky the runs of the store
--   Config          internal/config/config.go; Config/Valid
--   Examples        concrete runs at which the hypotheses of the theorems hold
--
-- A method that changes its receiver returns the new state beside its result; appended warnings
-- are a second result, one constructor for each format string (clipWarnValue, which bounds what a
-- warning quotes, is left out). A nil dereference, of which Feed has one, is `none`; the recovery
-- of the middleware turns it into an error reply. How a scan of the body ends (client, timer, read
-- error) is the argument ScanEnd. encoding/json, regexp groups, hashing, base64, strings.TrimSpace
-- and the random ids are not modelled: the upstream is a function from the envelope to what came
-- back, and the records Json, RequestJson, ChatJson, OutJson, Codec and BodyText are parameters,
-- of which nothing is assumed but what a theorem says. A regular expression that is a constant is
-- written out (status_from_message). Loops are structural recursion on the lists that they range
-- over; the one recursion on fuel, in chat_split_runes, has the number of runes as its fuel, and
-- every round takes at least one.
--
-- Not modelled: internal/translate/respin.go and PrefixCacheKey; internal/masq but for session.go;
-- handleResponses and the error writers of internal/server. HTTP, timers, logging and JSON framing
-- are left out for good.
pub mod Base
pub mod Types
pub mod Content
pub mod Pairing
pub mod Errs
pub mod Stream
pub mod ChatOut
pub mod Request
pub mod Examples
pub mod Aggregate
pub mod Server
pub mod ChatIn
pub mod Session
pub mod Config
pub mod RespOut
