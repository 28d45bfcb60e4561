-- ===== src/Server/Handlers.antt =====
-- internal/server: `runPipeline` of pipeline.go, and the handlers of messages.go and chat.go. The
-- session store and the upstream client are one argument, the function from the envelope to what came
-- back; a panic of a handler is that of `Feed` in the pipeline.
use cmdc2api.Base.{
  ℕ, String, ◌<>◌, Bool, Option, none, some, List, [], ◌∷◌, ◌==◌, is_nil, if◌then◌else◌,
}
use cmdc2api.Types.Inbound.{Request}
use cmdc2api.Types.Cmdc.{CcRequest}
use cmdc2api.Types.Chat.{ChatRequest, ChatJson}
use cmdc2api.Types.Event.{StreamEvent, Message}
use cmdc2api.Errs.{BodyText, map_error}
use cmdc2api.Stream.{Codec, new_translator}
use cmdc2api.Aggregate.{new_aggregator}
use cmdc2api.ChatOut.{Frame, ChatCompletion, new_chat_encoder, new_chat_aggregator}
use cmdc2api.Request.Shape.{RequestJson, BuildOpts}
use cmdc2api.Request.{build_cc_request}
use cmdc2api.ChatIn.Warnings.{ChatWarn}
use cmdc2api.ChatIn.Convert.{chat_to_request_body}
use cmdc2api.Server.Writer.{Write, error_reply}
use cmdc2api.Server.Serve.{EventEncoder, EventAggregator, ScanEnd, serve_stream, serve_buffer}
use cmdc2api.Server.Chat.{chat_encoder, chat_aggregator}
use cmdc2api.Server.Anthropic.{anthropic_encoder, anthropic_aggregator}
use cmdc2api.Server.Body.{read_body, get_api_key, missing_api_key}

-- What `Generate` gives: nothing, as the client has gone; an error; a response with another status than
-- 200 and its body, up to 64 KiB of it; or the lines of a body, with fresh ids, and how its scan ends.
pub data Reached : Type 0 where
  client_gone : Reached
  unreachable : String → Reached
  refused : ℕ → List ℕ → Reached
  answering : List (String × String) → ScanEnd → Reached

-- `mapHTTPError`.
unfoldable pub map_http_error : {F R : Type 0} → BodyText → ℕ → List ℕ → Write F R
map_http_error text cc_status body =
    let (m, message) = map_error text cc_status body in
    error_reply m.status m.type message m.retry_after

-- What is the same for all requests, and what a request brings but its body: the count of timeouts,
-- the message id and the options of the envelope.
pub record Setting : Type 0 where
  pub codec : Codec
  pub body_text : BodyText
  pub request_json : RequestJson
  pub opts : BuildOpts
  pub message_id : String
  pub consec : ℕ
  pub upstream : CcRequest → Reached

abbrev pub model_of : Request → String
model_of req = if req.model == "" then "deepseek/deepseek-v4-flash" else req.model

module _ {F R : Type 0} (enc : EventEncoder F) (agg : EventAggregator R) where
  -- `runPipeline` behind `Generate`.
  unfoldable pub answer_with :
      Setting → enc.State → agg.State → Request → Reached → ℕ × List (Write F R)
  answer_with st e a req client_gone = (st.consec, [])
  answer_with st e a req (unreachable message) =
      (st.consec, error_reply 502 "api_error" ("Upstream error: " <> message) 0 ∷ [])
  answer_with st e a req (refused status body) =
      (st.consec, map_http_error st.body_text status body ∷ [])
  answer_with st e a req (answering lines ending) =
      let t = new_translator (model_of req) st.message_id in
      if req.stream
      then serve_stream R enc st.codec st.consec t e lines ending
      else serve_buffer F agg st.codec st.consec t a lines ending

  unfoldable pub run_pipeline : Setting → enc.State → agg.State → Request → ℕ × List (Write F R)
  run_pipeline st e a req =
      answer_with st e a req (st.upstream (build_cc_request st.request_json st.opts req).0)

-- `json.Unmarshal` of a body: the text of an error, or the value.
pub data Decoded (A : Type 0) : Type 0 where
  invalid : String → Decoded A
  decoded : A → Decoded A

-- The body and the headers of a request as the HTTP library gives them, and library functions that
-- the handlers call. `limit` is `MaxBodyBytes` where it is not negative; the negative limit that a
-- `CC_MAX_BODY_MB` of 2^43 or more can give is outside the model.
pub record Incoming : Type 0 where
  pub limit : ℕ
  pub chunks : List (List ℕ)
  pub fails : Bool
  pub authorization : String
  pub x_api_key : String
  pub valid : List ℕ → Bool
  pub itoa : ℕ → String
  pub trim_space : String → String

abbrev pub bad_request : {F R : Type 0} → String → Write F R
bad_request message = error_reply 400 "invalid_request_error" message 0

-- The test of the key behind `readBody`.
unfoldable pub require_key :
    {F R : Type 0} → Bool → Option (List ℕ) × List (Write F R) → Option (List ℕ) × List (Write F R)
require_key missing (none, ws) = (none, ws)
require_key missing (some body, ws) =
    if missing then (none, missing_api_key ∷ []) else (some body, ws)

-- The start of the three handlers: the body of a request with a key, or what is written.
unfoldable pub admit : {F R : Type 0} → Incoming → Option (List ℕ) × List (Write F R)
admit inc =
    require_key (get_api_key inc.trim_space inc.authorization inc.x_api_key == "")
      (read_body inc.valid inc.itoa inc.limit inc.chunks inc.fails)

unfoldable pub with_body :
    {F R : Type 0}
    → ℕ
    → (List ℕ → ℕ × List (Write F R))
    → Option (List ℕ) × List (Write F R)
    → ℕ × List (Write F R)
with_body consec k (none, ws) = (consec, ws)
with_body consec k (some body, ws) = k body

-- `handleMessages` behind that.
unfoldable pub decoded_messages :
    (String → Bool) → Setting → Decoded Request → ℕ × List (Write StreamEvent Message)
decoded_messages valid st (invalid message) =
    (st.consec, bad_request ("Invalid request body: " <> message) ∷ [])
decoded_messages valid st (decoded req) =
    if is_nil req.messages
    then (st.consec, bad_request "messages: at least one message is required" ∷ [])
    else run_pipeline anthropic_encoder (anthropic_aggregator valid) st tt new_aggregator req

unfoldable pub handle_messages :
    (String → Bool)
    → Setting
    → (List ℕ → Decoded Request)
    → Incoming
    → ℕ × List (Write StreamEvent Message)
handle_messages valid st unmarshal inc =
    with_body st.consec (λ body. decoded_messages valid st (unmarshal body)) (admit inc)

-- `handleChatCompletions` behind `ChatToRequestBody`.
unfoldable pub converted_chat :
    (String → Bool)
    → Setting
    → Option (Request × List String)
    → ℕ × List (Write Frame ChatCompletion)
converted_chat valid st none = (st.consec, bad_request "Invalid 'n': only n=1 is supported" ∷ [])
converted_chat valid st (some (req, warns)) =
    if is_nil req.messages
    then (st.consec, bad_request "messages: no convertible content after normalization" ∷ [])
    else run_pipeline chat_encoder (chat_aggregator valid) st new_chat_encoder new_chat_aggregator
        req

-- `handleChatCompletions` behind `json.Unmarshal`, for the raw body and its reading.
unfoldable pub decoded_chat :
    ChatJson
    → (ChatWarn → String)
    → (ℕ → String)
    → Setting
    → String
    → Decoded ChatRequest
    → ℕ × List (Write Frame ChatCompletion)
decoded_chat cj text itoa st raw (invalid message) =
    (st.consec, bad_request ("Invalid request body: " <> message) ∷ [])
decoded_chat cj text itoa st raw (decoded creq) =
    if is_nil creq.messages
    then (st.consec, bad_request "messages: at least one message is required" ∷ [])
    else converted_chat cj.valid st (chat_to_request_body cj text itoa raw creq)

-- `text_of` is the conversion of the bytes to a text.
unfoldable pub handle_chat_completions :
    ChatJson
    → (ChatWarn → String)
    → Setting
    → (List ℕ → String)
    → (List ℕ → Decoded ChatRequest)
    → Incoming
    → ℕ × List (Write Frame ChatCompletion)
handle_chat_completions cj text st text_of unmarshal inc =
    with_body st.consec (λ body. decoded_chat cj text inc.itoa st (text_of body) (unmarshal body))
      (admit inc)
