-- ===== src/Types/Responses.antt =====
-- internal/types/responses.go: the events of a Responses stream, without the sequence number that every
-- event has, and without what all of them repeat (ids, model and time of the response).
use cmdc2api.Base.{ℕ, String, Option, List}
use cmdc2api.Types.Event.{DeltaUsage}

pub data ItemStatus : Type 0 where
  in_progress completed incomplete failed : ItemStatus

-- The output items: a message with its texts, a reasoning item with its signature and its summary,
-- and the three tool calls. The arguments of a tool search are its text where it is an object.
pub data OutputItem : Type 0 where
  message_item : String → ItemStatus → List String → OutputItem
  reasoning_item : String → List String → OutputItem
  function_item : String → String → String → String → String → ItemStatus → OutputItem
  custom_item : String → String → String → String → ItemStatus → OutputItem
  search_item : String → String → Option String → ItemStatus → OutputItem

-- `ResponsesResponse`, of which what changes.
pub record Response : Type 0 where
  pub status : ItemStatus
  pub output : List OutputItem
  pub usage : DeltaUsage

-- An event: its place is the item's `output_index` and, for a text part, its index.
pub data Payload : Type 0 where
  response_created response_in_progress : Response → Payload
  item_added item_done : ℕ → OutputItem → Payload
  part_added : ℕ → ℕ → String → Payload
  output_text_delta output_text_done part_done : ℕ → ℕ → String → String → Payload
  summary_part_added : ℕ → Payload
  summary_delta summary_done summary_part_done : ℕ → String → Payload
  args_delta args_done input_delta input_done : ℕ → String → String → String → String → Payload
  response_completed : Response → Payload
  response_failed : Response → String → String → Payload
  response_incomplete : Response → String → Payload
