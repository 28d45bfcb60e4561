-- ===== src/Stream/Usage/Bill.antt =====
-- What `DeltaUsage` bills.
use cmdc2api.Base.{
  ℕ, suc, ◌-◌, ◌≤◌, ◌<◌, Bool-cases, inl, inr, ◌≡◌, refl, Bool, true, false, Option, none, some, ℤ,
  pos, is_neg, ◌-ℤ◌, arith, pos--ℤ,
}
use cmdc2api.Types.Cmdc.{CcUsage, normalize}
use cmdc2api.Types.Event.{DeltaUsage}
use cmdc2api.Stream.{Translator, output_tokens}
use cmdc2api.Stream.Usage.{cached_tokens, no_cache, uncached_tokens, usage_of, delta_usage}

abbrev pub IsFree : DeltaUsage → Type 0
IsFree u =
    (u.input_tokens ≡ pos 0)
    × (u.cache_read_input_tokens ≡ pos 0)
    × (u.cache_creation_input_tokens ≡ none)

usage_of-IsFree :
    (u : CcUsage) (has : Bool) (out : ℤ)
    → u.output_tokens ≡ pos 0
    → IsFree (usage_of (normalize u) has out)
unfolding usage_of normalize ◌-ℤ◌
usage_of-IsFree u has out h = ground arith

-- An answer for which the upstream reports no output tokens bills no input, no cache read and no
-- cache write, whatever else the upstream reports.
pub delta_usage-IsFree : (t : Translator) → t.usage.output_tokens ≡ pos 0 → IsFree (delta_usage t).1
unfolding delta_usage
delta_usage-IsFree t h = usage_of-IsFree t.usage t.has_usage (output_tokens t) h

uncached_tokens-nonneg :
    (u : CcUsage) (cached : ℤ) (o : Option ℤ) → is_neg (uncached_tokens u cached o) ≡ false
unfolding uncached_tokens
uncached_tokens-nonneg u cached none = ground arith
uncached_tokens-nonneg u cached (some n) = ground arith

-- The input tokens of a bill are never below zero.
pub delta_usage_nonneg : (t : Translator) → is_neg (delta_usage t).1.input_tokens ≡ false
unfolding delta_usage usage_of
delta_usage_nonneg t = elim (Bool-cases t.has_usage) [
  | inl h ↦
      let u = normalize t.usage in
      rw h (
        uncached_tokens-nonneg u (cached_tokens u u.input_token_details)
          (no_cache u.input_token_details))
  | inr h ↦ rw h refl
]

-- Where the upstream reports output, `a` input tokens and `b` cached ones among them, and neither
-- details nor an overflow of 63 bits, the bill has the `a - b` uncached and the `b` cached tokens.
pub delta_usage_exact :
    (t : Translator) (a b o : ℕ)
    → t.has_usage ≡ true
    → t.usage ≡ record {
      input_tokens = pos a;
      output_tokens = pos (suc o);
      cached_input_tokens = pos b;
      input_token_details = none;
    }
    → b ≤ a
    → a < 9223372036854775808
    → (delta_usage t).1 ≡ record {
      output_tokens = pos (suc o);
      input_tokens = pos (a - b);
      cache_read_input_tokens = pos b;
      cache_creation_input_tokens = none;
    }
unfolding delta_usage usage_of normalize output_tokens
delta_usage_exact t a b o h u le lt = rw (u, h) (rw (pos--ℤ a b lt (omega arith)) (ground arith))
