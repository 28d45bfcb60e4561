-- ===== src/ChatIn/DataUri.antt =====
-- internal/translate/chatin.go: the addresses that `chatImageSource` understands.
use Prim.Native.Char.{Char}
use text.Mathlib.TextLemmas.{cons-append, nil-append}
use text.Mathlib.TextPositions.{eq_refl}
use cmdc2api.Base.{
  cons-ne, ≢→==, String, ◌≡◌, refl, ap, ◌∙◌, Bool, true, false, not, ◌&&◌, some, [], ◌∷◌, ◌<>◌,
  ◌==◌, arith,
}
use cmdc2api.Types.Inbound.{ImageSource}
use cmdc2api.Types.Chat.{ChatJson}
use cmdc2api.ChatIn.Content.{
  cut_prefix, cut, split_at, last_segment, base64_source, data_source, source_of,
  source_of_segments, chat_image_source,
}

-- A rune does not occur in a text.
abbrev pub lacks : String → String → Bool
lacks sep String.[] = true
lacks sep (String.◌∷◌ c s) = not (String.◌∷◌ c String.[] == sep) && lacks sep s

cut_prefix-append : (p s : String) → cut_prefix p (p <> s) ≡ some s
unfolding cut_prefix
cut_prefix-append String.[] s = ap some (nil-append s)
cut_prefix-append (String.◌∷◌ c p) s =
    rw (cons-append c p s, eq_refl (String.◌∷◌ c String.[])) (cut_prefix-append p s)

lacks-append :
    (sep a b : String) → lacks sep a ≡ true → lacks sep b ≡ true → lacks sep (a <> b) ≡ true
lacks-append sep String.[] b h k = rw (nil-append b) k
lacks-append sep (String.◌∷◌ c a) b h k =
    rw (cons-append c a b) (ground (arith, lacks-append sep a b))

head-lacks : (b r : Bool) → (not b && r) ≡ true → b ≡ false
head-lacks b r h = ground arith

tail-lacks : (b r : Bool) → (not b && r) ≡ true → r ≡ true
tail-lacks b r h = ground arith

-- A text of one rune.
abbrev one : Char → String
one x = String.◌∷◌ x String.[]

one-append : (x : Char) (b : String) → one x <> b ≡ String.◌∷◌ x b
one-append x b = cons-append x String.[] b ∙ ap (String.◌∷◌ x) (nil-append b)

cut-append :
    (x : Char) (a b : String)
    → lacks (one x) a ≡ true
    → cut (one x) (a <> (one x <> b)) ≡ some (a, b)
unfolding cut
cut-append x String.[] b h = rw (nil-append (one x <> b), one-append x b, eq_refl (one x)) refl
cut-append x (String.◌∷◌ c a) b h =
    let d = head-lacks (one c == one x) (lacks (one x) a) h in
    let k = tail-lacks (one c == one x) (lacks (one x) a) h in
    rw (cons-append c a (one x <> b), d, cut-append x a b k) refl

split_at-append :
    (x : Char) (a b : String)
    → lacks (one x) a ≡ true
    → split_at (one x) (a <> (one x <> b)) ≡ a ∷ split_at (one x) b
unfolding split_at
split_at-append x String.[] b h = rw (nil-append (one x <> b), one-append x b, eq_refl (one x)) refl
split_at-append x (String.◌∷◌ c a) b h =
    let d = head-lacks (one c == one x) (lacks (one x) a) h in
    let k = tail-lacks (one c == one x) (lacks (one x) a) h in
    rw (cons-append c a (one x <> b), d, split_at-append x a b k)
      (ap (λ z. z ∷ split_at (one x) b) (one-append c a))

split_base64 : split_at ";" "base64" ≡ "base64" ∷ []
unfolding split_at
split_base64 = refl

-- The address of an image in base64.
abbrev pub data_uri : String → String → String
data_uri media payload = "data:" <> ((media <> (";" <> "base64")) <> ("," <> payload))

-- The media type of an address, `image/png` where it has none.
abbrev pub media_or_png : String → String
media_or_png String.[] = "image/png"
media_or_png (String.◌∷◌ c s) = String.◌∷◌ c s

-- An image in base64, with its data in the address itself.
abbrev pub embedded : String → String → ImageSource
embedded media payload = record {
  type = "base64";
  media_type = media_or_png media;
  payload = payload;
  url = "";
}

base64_source-embedded :
    (media payload : String) → base64_source media payload ≡ embedded media payload
base64_source-embedded String.[] payload = refl
base64_source-embedded (String.◌∷◌ c s) payload = rw (≢→== (String.◌∷◌ c s) "" (cons-ne c s)) refl

data_source_lem :
    (cj : ChatJson) (media payload : String)
    → cj.equal_fold "base64" "base64" ≡ true
    → lacks ";" media ≡ true
    → (payload == "") ≡ false
    → data_source cj (some (media <> (";" <> "base64"), payload)) ≡ some (embedded media payload)
unfolding data_source source_of_segments last_segment
data_source_lem cj media payload f s p =
    let segments = split_at-append ";" media "base64" s ∙ ap (λ z. media ∷ z) split_base64 in
    rw (p, segments, f, base64_source-embedded media payload) refl

base64-lacks : lacks "," (";" <> "base64") ≡ true
base64-lacks = refl

-- Where `EqualFold` finds `base64` equal to itself, a `data:` address of a media type without comma
-- and semicolon and of a payload that is not empty is read as an embedded image of exactly that media
-- type and payload without another address; an empty media type is read as `image/png`.
pub chat_image_source-data_uri :
    (cj : ChatJson) (media payload : String)
    → cj.equal_fold "base64" "base64" ≡ true
    → lacks "," media ≡ true
    → lacks ";" media ≡ true
    → (payload == "") ≡ false
    → chat_image_source cj (data_uri media payload) ≡ some (embedded media payload)
unfolding chat_image_source source_of
chat_image_source-data_uri cj media payload f c s p =
    let meta = media <> (";" <> "base64") in
    let rest = meta <> ("," <> payload) in
    ap (source_of cj (data_uri media payload)) (cut_prefix-append "data:" rest)
    ∙ ap (data_source cj)
        (cut-append "," meta payload (lacks-append "," media (";" <> "base64") c base64-lacks))
    ∙ data_source_lem cj media payload f s p
