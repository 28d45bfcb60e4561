-- ===== src/Request/Bounds.antt =====
-- internal/translate/request.go: the bounds on the token limit that the envelope asks for.
use cmdc2api.Base.{leb, ℕ, suc, ◌≤◌, ◌≡◌, refl, ℤ, pos, negsuc, arith, if◌then◌else◌}
use cmdc2api.Types.Inbound.{Request}
use cmdc2api.Request.Shape.{RequestJson, BuildOpts}
use cmdc2api.Request.{clamp_max_tokens, build_cc_request}

-- The limit that is sent, as a specification: the default, the ceiling or the request's own.
abbrev pub sent_limit : ℤ → ℕ
sent_limit (pos ℕ.zero) = 64000
sent_limit (negsuc n) = 64000
sent_limit (pos (suc n)) = if leb 200000 (suc n) then 200000 else suc n

clamp_max_tokens_lem : (n : ℤ) → (clamp_max_tokens n).0 ≡ pos (sent_limit n)
unfolding clamp_max_tokens
clamp_max_tokens_lem (pos ℕ.zero) = refl
clamp_max_tokens_lem (negsuc n) = refl
clamp_max_tokens_lem (pos (suc n)) = ground arith

sent_limit-bounds : (n : ℤ) → (1 ≤ sent_limit n) × (sent_limit n ≤ 200000)
sent_limit-bounds (pos ℕ.zero) = (omega arith, omega arith)
sent_limit-bounds (negsuc n) = (omega arith, omega arith)
sent_limit-bounds (pos (suc n)) = ground arith

-- For every request, whatever its `max_tokens`: the envelope asks for at least one and at most
-- 200000 tokens, namely for 64000 where the request gives no positive number, for 200000 where it
-- asks for that or more, and otherwise for what the request says.
pub max_tokens_bounded :
    (rj : RequestJson) (opts : BuildOpts) (req : Request)
    → ((build_cc_request rj opts req).0.params.max_tokens ≡ pos (sent_limit req.max_tokens))
      × ((1 ≤ sent_limit req.max_tokens) × (sent_limit req.max_tokens ≤ 200000))
unfolding build_cc_request
max_tokens_bounded rj opts req =
    (clamp_max_tokens_lem req.max_tokens, sent_limit-bounds req.max_tokens)
