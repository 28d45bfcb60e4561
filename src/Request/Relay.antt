-- ===== src/Request/Relay.antt =====
-- internal/translate/request.go: what `convertUser` forwards: nothing is lost, doubled or reordered.
use cmdc2api.Base.{
  String, ◌≡◌, refl, sym, ◌∙◌, ap, Bool, true, false, ◌||◌, Option, none, some, List, [], ◌∷◌, ◌++◌,
  ◌==◌, is_nil, Dict, get, inl, inr, Bool-cases, ==→≡, if◌then◌else◌,
}
use mathlib.Core.List.{append_assoc, append-nil}
use cmdc2api.Types.Inbound.{Block, Json}
use cmdc2api.Types.Cmdc.{CcPart, CcMessage}
use cmdc2api.Request.Shape.{zero_part, cc_cc, image_to_cc, tool_result_content, ParsedMessage}
use cmdc2api.Request.User.{
  UserState, empty_user, flush_user, add_part, media_parts, tool_message, user_image, user_result,
  user_block, user_blocks, user_end, convert_user,
}

-- The parts of the user messages, in order, and the tool messages, in order.
abbrev pub user_parts_of : List CcMessage → List CcPart
user_parts_of [] = []
user_parts_of (m ∷ ms) =
    if m.role == "user" then m.content ++ user_parts_of ms else user_parts_of ms

abbrev pub tool_messages_of : List CcMessage → List CcMessage
tool_messages_of [] = []
tool_messages_of (m ∷ ms) =
    if m.role == "tool" then m ∷ tool_messages_of ms else tool_messages_of ms

abbrev pub image_parts : Block → Option String → List CcPart
image_parts b none = []
image_parts b (some uri) =
    record zero_part { type = "image"; image = uri; cache_control = cc_cc b.cache_control } ∷ []

abbrev pub result_media : Json → Block → Option String → List CcPart
result_media json b none = []
result_media json b (some name) =
    media_parts b.tool_use_id (tool_result_content json b.content).images

-- What one block becomes on the user's side: a text that is not empty, an image that can be sent,
-- the images of a result whose call is known.
abbrev pub parts_of_block : Json → Dict String → Block → List CcPart
parts_of_block json names b =
    if b.type == "text"
    then (if b.text == ""
        then []
        else record zero_part {
          type = "text";
          text = b.text;
          cache_control = cc_cc b.cache_control;
        }
          ∷ [])
    else if b.type == "image"
    then image_parts b (image_to_cc b.source)
    else if b.type == "tool_result"
    then result_media json b (get names b.tool_use_id)
    else []

abbrev pub parts_of_blocks : Json → Dict String → List Block → List CcPart
parts_of_blocks json names [] = []
parts_of_blocks json names (b ∷ bs) = parts_of_block json names b ++ parts_of_blocks json names bs

abbrev pub result_tool : Json → Block → Option String → List CcMessage
result_tool json b none = []
result_tool json b (some name) = tool_message name b (tool_result_content json b.content).value ∷ []

-- One tool message for each result whose call is known.
abbrev pub tools_of_blocks : Json → Dict String → List Block → List CcMessage
tools_of_blocks json names [] = []
tools_of_blocks json names (b ∷ bs) =
    let rest = tools_of_blocks json names bs in
    if b.type == "tool_result" then result_tool json b (get names b.tool_use_id) ++ rest else rest

user_parts_of-append :
    (xs ys : List CcMessage) → user_parts_of (xs ++ ys) ≡ user_parts_of xs ++ user_parts_of ys
user_parts_of-append [] ys = refl
user_parts_of-append (m ∷ xs) ys = append_if (m.role == "user") _ _ _ (user_parts_of-append xs ys)
  where
    append_if :
        (b : Bool) (us vs ws : List CcPart)
        → us ≡ vs ++ ws
        → (if b then m.content ++ us else us) ≡ (if b then m.content ++ vs else vs) ++ ws
    append_if true us vs ws h = ap (λ z. m.content ++ z) h ∙ sym (append_assoc m.content _ _)
    append_if false us vs ws h = h

tool_messages_of-append :
    (xs ys : List CcMessage)
    → tool_messages_of (xs ++ ys) ≡ tool_messages_of xs ++ tool_messages_of ys
tool_messages_of-append [] ys = refl
tool_messages_of-append (m ∷ xs) ys =
    append_if (m.role == "tool") _ _ _ (tool_messages_of-append xs ys)
  where
    append_if :
        (b : Bool) (us vs ws : List CcMessage)
        → us ≡ vs ++ ws
        → (if b then m ∷ us else us) ≡ (if b then m ∷ vs else vs) ++ ws
    append_if true us vs ws h = ap (λ z. m ∷ z) h
    append_if false us vs ws h = h

-- The parts that a state holds, sent or not, in the order in which they will be sent.
abbrev held : UserState → List CcPart
held s = user_parts_of s.out ++ (s.pending_reloc ++ s.user_parts)

-- A state without its record.
abbrev state : List CcMessage → List CcPart → List CcPart → UserState
state o u p = record { out = o; user_parts = u; pending_reloc = p }

flush_user-held : (s : UserState) → held (flush_user s) ≡ held s
unfolding flush_user
flush_user-held s = go s.out s.user_parts s.pending_reloc
  where
    go :
        (o : List CcMessage) (u p : List CcPart)
        → held (flush_user (state o u p)) ≡ held (state o u p)
    go o [] p = refl
    go o (x ∷ u) p = simp (user_parts_of-append, append-nil)

flush_user-tools : (s : UserState) → tool_messages_of (flush_user s).out ≡ tool_messages_of s.out
unfolding flush_user
flush_user-tools s = go s.out s.user_parts s.pending_reloc
  where
    go :
        (o : List CcMessage) (u p : List CcPart)
        → tool_messages_of (flush_user (state o u p)).out ≡ tool_messages_of o
    go o [] p = refl
    go o (x ∷ u) p = simp (tool_messages_of-append, append-nil)

flush_user-parts : (s : UserState) → (flush_user s).user_parts ≡ []
unfolding flush_user
flush_user-parts s = go s.out s.user_parts s.pending_reloc
  where
    go : (o : List CcMessage) (u p : List CcPart) → (flush_user (state o u p)).user_parts ≡ []
    go o [] p = refl
    go o (x ∷ u) p = refl

-- The state `t` holds `ps` behind what `s` holds, and has the tool messages `ts` behind those of `s`.
record Forwards (s t : UserState) (ps : List CcPart) (ts : List CcMessage) : Type 0 where
  parts_kept : held t ≡ held s ++ ps
  tools_kept : tool_messages_of t.out ≡ tool_messages_of s.out ++ ts

Forwards-nothing : (s : UserState) → Forwards s s [] []
Forwards-nothing s = record { parts_kept = sym (append-nil _); tools_kept = sym (append-nil _) }

add_part-Forwards : (s : UserState) (p : CcPart) → Forwards s (add_part s p) (p ∷ []) []
unfolding add_part
add_part-Forwards s p = record { parts_kept = simp append_assoc; tools_kept = sym (append-nil _) }

user_image-Forwards :
    (s : UserState) (b : Block) (o : Option String)
    → Forwards s (user_image s b o).0 (image_parts b o) []
unfolding user_image
user_image-Forwards s b none = Forwards-nothing s
user_image-Forwards s b (some uri) = add_part-Forwards s _

-- From a state without user parts, as `flushUser` leaves it.
user_result-Forwards :
    (json : Json) (s : UserState) (b : Block) (o : Option String)
    → s.user_parts ≡ []
    → Forwards s (user_result json s b o).0 (result_media json b o) (result_tool json b o)
unfolding user_result tool_message
user_result-Forwards json s b none h = Forwards-nothing s
user_result-Forwards json s b (some name) h = record {
  parts_kept = simp (h, user_parts_of-append, append-nil, append_assoc);
  tools_kept = tool_messages_of-append s.out _;
}

flushed-Forwards :
    (s t : UserState) (ps : List CcPart) (ts : List CcMessage)
    → Forwards (flush_user s) t ps ts
    → Forwards s t ps ts
flushed-Forwards s t ps ts f = record {
  parts_kept = f.parts_kept ∙ ap (λ z. z ++ ps) (flush_user-held s);
  tools_kept = f.tools_kept ∙ ap (λ z. z ++ ts) (flush_user-tools s);
}

Forwards-if :
    {A : Type 0} (s : UserState) (c : Bool) (x y : UserState × A) (ps qs : List CcPart)
    (ts us : List CcMessage)
    → Forwards s x.0 ps ts
    → Forwards s y.0 qs us
    → Forwards s (if c then x else y).0 (if c then ps else qs) (if c then ts else us)
Forwards-if s true x y ps qs ts us f g = f
Forwards-if s false x y ps qs ts us f g = g

Forwards-same :
    {A : Type 0} (s : UserState) (c : Bool) (x y : UserState × A) (ps : List CcPart)
    (ts : List CcMessage)
    → Forwards s x.0 ps ts
    → Forwards s y.0 ps ts
    → Forwards s (if c then x else y).0 ps ts
Forwards-same s true x y ps ts f g = f
Forwards-same s false x y ps ts f g = g

-- The tool messages of one block, its type tested in the order of the source.
abbrev tools_in_order : Json → Dict String → Block → List CcMessage
tools_in_order json names b =
    if b.type == "text"
    then (if b.text == "" then [] else [])
    else if b.type == "image"
    then []
    else if b.type == "tool_result"
    then result_tool json b (get names b.tool_use_id)
    else []

user_block-Forwards :
    (json : Json) (names : Dict String) (s : UserState) (b : Block)
    → Forwards s
        (user_block json names s b).0
        (parts_of_block json names b)
        (tools_in_order json names b)
unfolding user_block
user_block-Forwards json names s b =
    Forwards-if s (b.type == "text") _ _ _ _ _ _
      (Forwards-if s (b.text == "") _ _ _ _ _ _ (Forwards-nothing s) (add_part-Forwards s _))
      (Forwards-if s (b.type == "image") _ _ _ _ _ _
        (user_image-Forwards s b (image_to_cc b.source))
        (Forwards-if s (b.type == "tool_result") _ _ _ _ _ _
          (flushed-Forwards s _ _ _ (
            user_result-Forwards json (flush_user s) b (get names b.tool_use_id)
              (flush_user-parts s)))
          (Forwards-same s (b.type == "thinking" || b.type == "redacted_thinking") _ _ _ _
            (Forwards-nothing s)
            (Forwards-same s (b.type == "document") _ _ _ _ (Forwards-nothing s)
              (Forwards-nothing s)))))

-- The order of the tests does not matter: the types differ.
tools_in_order_lem :
    (json : Json) (names : Dict String) (b : Block)
    → tools_in_order json names b
      ≡ (if b.type == "tool_result" then result_tool json b (get names b.tool_use_id) else [])
tools_in_order_lem json names b = elim (Bool-cases (b.type == "tool_result")) [
  | inl e ↦ simp (==→≡ b.type "tool_result" e)
  | inr e ↦ rw e (nothing (b.type == "text") (b.text == "") (b.type == "image") [])
]
  where
    nothing :
        (c d i : Bool) (r : List CcMessage)
        → (if c then (if d then r else r) else if i then r else r) ≡ r
    nothing true true i r = refl
    nothing true false i r = refl
    nothing false d true r = refl
    nothing false d false r = refl

Forwards-join :
    (s t u : UserState) (ps qs : List CcPart) (ts us : List CcMessage)
    → Forwards s t ps ts
    → Forwards t u qs us
    → Forwards s u (ps ++ qs) (ts ++ us)
Forwards-join s t u ps qs ts us f g = record {
  parts_kept = g.parts_kept ∙ ap (λ z. z ++ qs) f.parts_kept ∙ append_assoc (held s) ps qs;
  tools_kept =
      g.tools_kept ∙ ap (λ z. z ++ us) f.tools_kept ∙ append_assoc (tool_messages_of s.out) ts us;
}

if-append :
    (c : Bool) (ts rest : List CcMessage)
    → (if c then ts else []) ++ rest ≡ (if c then ts ++ rest else rest)
if-append true ts rest = refl
if-append false ts rest = refl

user_blocks-Forwards :
    (json : Json) (names : Dict String) (s : UserState) (bs : List Block)
    → Forwards s
        (user_blocks json names s bs).0
        (parts_of_blocks json names bs)
        (tools_of_blocks json names bs)
unfolding user_blocks
user_blocks-Forwards json names s [] = Forwards-nothing s
user_blocks-Forwards json names s (b ∷ bs) =
    let t = (user_block json names s b).0 in
    let all =
      Forwards-join s t _ _ _ _ _ (user_block-Forwards json names s b)
        (user_blocks-Forwards json names t bs) in
    record {
      parts_kept = all.parts_kept;
      tools_kept =
          all.tools_kept
          ∙ ap (λ z. tool_messages_of s.out ++ z)
              (ap (λ z. z ++ tools_of_blocks json names bs) (tools_in_order_lem json names b)
                ∙ if-append (b.type == "tool_result") _ _);
    }

abbrev user_end_of : List CcMessage → List CcPart → List CcMessage
user_end_of o p = if is_nil p then o else o ++ record { role = "user"; content = p } ∷ []

last_flush :
    (o : List CcMessage) (u p : List CcPart)
    → u ≡ []
    → (user_parts_of (user_end_of o p) ≡ held (state o u p))
      × (tool_messages_of (user_end_of o p) ≡ tool_messages_of o)
last_flush o u [] h = (simp (h, append-nil), refl)
last_flush o u (x ∷ p) h =
    (simp (h, user_parts_of-append, append-nil), simp (tool_messages_of-append, append-nil))

user_end-kept :
    (s : UserState)
    → (user_parts_of (user_end s) ≡ held s)
      × (tool_messages_of (user_end s) ≡ tool_messages_of s.out)
unfolding user_end
user_end-kept s =
    let t = flush_user s in
    let (parts, tools) = last_flush t.out t.user_parts t.pending_reloc (flush_user-parts s) in
    (parts ∙ flush_user-held s, tools ∙ flush_user-tools s)

-- For every user message: the parts of the user messages that it becomes, read in order, are what
-- each block alone becomes, in the blocks' order: every text that is not empty, every image that
-- can be sent, and for the images of a tool result whose call is known, a label and the image. Its
-- tool messages are, in the blocks' order, one for each tool result whose call is known, with the
-- call's name and the result's text.
pub convert_user_relays :
    (json : Json) (names : Dict String) (pm : ParsedMessage)
    → (user_parts_of (convert_user json names pm).0 ≡ parts_of_blocks json names pm.blocks)
      × (tool_messages_of (convert_user json names pm).0 ≡ tools_of_blocks json names pm.blocks)
unfolding convert_user
convert_user_relays json names pm =
    let s = (user_blocks json names empty_user pm.blocks).0 in
    let (parts, tools) = user_end-kept s in
    let kept = user_blocks-Forwards json names empty_user pm.blocks in
    (parts ∙ kept.parts_kept, tools ∙ kept.tools_kept)
