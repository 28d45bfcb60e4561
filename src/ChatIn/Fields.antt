-- ===== src/ChatIn/Fields.antt =====
-- internal/translate/chatin.go: the fields of a Chat request that have no effect upstream.
use cmdc2api.Base.{
  String, Bool, not, ◌&&◌, Option, none, some, List, [], ◌∷◌, ◌++◌, ◌==◌, is_some, if◌then◌else◌,
}
use cmdc2api.Types.Chat.{ChatRequest, ChatJson, is_absent, chat_ignored_fields}
use cmdc2api.ChatIn.Tools.{is_true}
use cmdc2api.ChatIn.Warnings.{
  ChatWarn, stop_ignored, response_format_ignored, parallel_ignored, stream_options_ignored,
  seed_ignored, user_ignored, logprobs_ignored, top_logprobs_ignored, store_ignored, field_ignored,
}

abbrev pub warn_if : Bool → ChatWarn → List ChatWarn
warn_if b w = if b then w ∷ [] else []

abbrev pub is_false : Option Bool → Bool
is_false none = Bool.false
is_false (some b) = not b

unfoldable pub chat_dropped_field_warnings : ChatRequest → Bool → List ChatWarn
chat_dropped_field_warnings req parallel_applied =
    warn_if (not (is_absent req.stop)) stop_ignored
    ++ (warn_if (not (is_absent req.response_format)) response_format_ignored
        ++ (warn_if (is_false req.parallel_tool_calls && not parallel_applied) parallel_ignored
            ++ (warn_if (is_some req.stream_options) stream_options_ignored
                ++ (warn_if (is_some req.seed) seed_ignored
                    ++ (warn_if (not (req.user == "")) user_ignored
                        ++ (warn_if (is_true req.logprobs) logprobs_ignored
                            ++ warn_if (is_some req.top_logprobs) top_logprobs_ignored))))))

unfoldable pub chat_store_flag_true : ChatJson → String → Bool
chat_store_flag_true cj raw = elim (cj.unmarshal_store raw) [
  | none ↦ Bool.false
  | some b ↦ is_true b
]

-- One round of the loop of `chatIgnoredWarnings`; the texts of `chatIgnoredWarnReasons` are those of
-- `field_ignored`.
unfoldable pub ignored_warning : ChatJson → String → String → List ChatWarn
ignored_warning cj raw f =
    if f == "store"
    then warn_if (chat_store_flag_true cj raw) store_ignored
    else field_ignored f ∷ []

unfoldable pub ignored_warnings : ChatJson → String → List String → List ChatWarn
ignored_warnings cj raw [] = []
ignored_warnings cj raw (f ∷ fs) = ignored_warning cj raw f ++ ignored_warnings cj raw fs

unfoldable pub chat_ignored_warnings : ChatJson → String → List ChatWarn
chat_ignored_warnings cj raw = ignored_warnings cj raw (chat_ignored_fields cj raw)
