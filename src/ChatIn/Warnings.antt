-- ===== src/ChatIn/Warnings.antt =====
-- The warnings of internal/translate/chatin.go, one constructor for each format string;
-- `clipWarnValue`, which bounds what a warning quotes, is left out.
use cmdc2api.Base.{ℕ, String, List}
use cmdc2api.Pairing.{Warning}

pub data ChatWarn : Type 0 where
  role_downgraded : ℕ → String → ChatWarn
  repaired : Warning → ChatWarn
  system_malformed : ℕ → String → ChatWarn
  system_parts_ignored : ℕ → String → List String → ChatWarn
  user_malformed user_image_missing user_image_scheme user_empty : ℕ → ChatWarn
  user_part_dropped : ℕ → String → ChatWarn
  assistant_malformed function_call_dropped call_without_name assistant_empty : ℕ → ChatWarn
  assistant_part_dropped : ℕ → String → ChatWarn
  call_type : ℕ → String → String → ChatWarn
  call_without_id : ℕ → String → ChatWarn
  arguments_invalid : String → ChatWarn
  arguments_not_object : String → String → ChatWarn
  result_without_call result_malformed result_image_missing result_image_scheme : ℕ → ChatWarn
  result_part_dropped : ℕ → String → ChatWarn
  tool_type_dropped : ℕ → String → String → ChatWarn
  tool_without_name : ℕ → ChatWarn
  strict_dropped : String → ChatWarn
  choice_without_tools choice_unparsable choice_without_name choice_allowed_tools : ChatWarn
  choice_unknown choice_type_unknown : String → ChatWarn
  effort_unparsable : ChatWarn
  effort_unknown : String → ChatWarn
  stop_ignored response_format_ignored parallel_ignored stream_options_ignored : ChatWarn
  seed_ignored user_ignored logprobs_ignored top_logprobs_ignored store_ignored : ChatWarn
  field_ignored : String → ChatWarn
