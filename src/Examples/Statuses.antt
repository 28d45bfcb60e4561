-- ===== src/Examples/Statuses.antt =====
-- Statuses and bodies for internal/errs/errs.go.
use cmdc2api.Base.{◌≢◌, none, [], ◌∷◌}
use cmdc2api.Errs.{map_status, BodyText, extract_message}
use cmdc2api.Errs.Laws.{IsErrorMapping, map_status_consistent, extract_message-ne-nil}

map_status_consistent_example : IsErrorMapping (map_status 402)
map_status_consistent_example = map_status_consistent 402

abbrev pub sample_text : BodyText
sample_text = record { unmarshal = λ b. none; trimmed = λ b. ""; itoa = λ n. "500" }

extract_message-ne-nil_example : extract_message sample_text (60 ∷ []) 500 ≢ ""
extract_message-ne-nil_example = extract_message-ne-nil sample_text (60 ∷ []) 500
