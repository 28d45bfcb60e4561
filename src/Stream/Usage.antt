-- ===== src/Stream/Usage.antt =====
-- `DeltaUsage` and `Finish` of stream.go.
pub mod Bill
use cmdc2api.Base.{
  String, Bool, true, false, not, ◌&&◌, Option, none, some, List, [], ◌∷◌, ◌++◌, ◌==◌, ℤ, pos,
  is_zero, is_neg, is_pos, ◌-ℤ◌, if◌then◌else◌,
}
use cmdc2api.Types.Cmdc.{CcUsage, CcInputTokenDetails, normalize}
use cmdc2api.Types.Event.{DeltaUsage, StreamEvent, message_delta, message_stop, error_event}
use cmdc2api.Stream.{Codec, Translator, close_block, output_tokens}

unfoldable pub cache_write : Option CcInputTokenDetails → Option ℤ
cache_write none = none
cache_write (some d) = if is_pos d.cache_write_tokens then some d.cache_write_tokens else none

-- `cached`: the details' count stands in for a missing one.
unfoldable pub cached_tokens : CcUsage → Option CcInputTokenDetails → ℤ
cached_tokens u none = u.cached_input_tokens
cached_tokens u (some d) =
    if is_pos d.cache_read_tokens && is_zero u.cached_input_tokens
    then d.cache_read_tokens
    else u.cached_input_tokens

abbrev pub no_cache : Option CcInputTokenDetails → Option ℤ
no_cache none = none
no_cache (some d) = d.no_cache_tokens

-- A count below zero is zero.
abbrev pub clamp_zero : ℤ → ℤ
clamp_zero n = if is_neg n then pos 0 else n

-- `input`: the upstream's own count of uncached tokens where it gives one, else the difference.
unfoldable pub uncached_tokens : CcUsage → ℤ → Option ℤ → ℤ
uncached_tokens u cached none = clamp_zero (u.input_tokens -ℤ cached)
uncached_tokens u cached (some n) = if is_neg n then clamp_zero (u.input_tokens -ℤ cached) else n

unfoldable pub usage_of : CcUsage → Bool → ℤ → DeltaUsage
unfolding cache_write cached_tokens uncached_tokens
usage_of u has_usage output =
    let cached = cached_tokens u u.input_token_details in
    let input = uncached_tokens u cached (no_cache u.input_token_details) in
    record {
      output_tokens = output;
      input_tokens = if has_usage then input else pos 0;
      cache_read_input_tokens = if has_usage then cached else pos 0;
      cache_creation_input_tokens = cache_write u.input_token_details;
    }

-- `DeltaUsage`. The copy `u := t.usage` shares its details with `t`, so what `Normalize` writes to
-- them is written to the translator too.
unfoldable pub delta_usage : Translator → Translator × DeltaUsage
delta_usage t =
    let u = normalize t.usage in
    (
      record t { usage = record t.usage { input_token_details = u.input_token_details } },
      usage_of u t.has_usage (output_tokens t),
    )

-- `Finish`, for a translator that is neither finished nor failed.
unfoldable pub finish_open : Codec → Translator → Translator × List StreamEvent
finish_open c t =
    let (u, out) = close_block c t in
    let v = record u { stop_reason = if u.stop_reason == "" then "end_turn" else u.stop_reason } in
    if is_zero (output_tokens v)
    then (
      v,
      out
          ++ error_event "rate_limit_error" "Empty response from upstream (zero output tokens)"
            ∷ [],
    )
    else (let (w, usage) = delta_usage v in
        (w, out ++ message_delta v.stop_reason usage ∷ message_stop ∷ []))

unfoldable pub finish : Codec → Translator → Translator × List StreamEvent
finish c t =
    if t.finished
    then (t, [])
    else (let u = record t { finished = true } in if t.has_error then (u, []) else finish_open c u)
