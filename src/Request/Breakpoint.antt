-- ===== src/Request/Breakpoint.antt =====
-- internal/translate/request.go: where `synthesizeCacheMarker` puts the breakpoint.
use cmdc2api.Base.{
  inr, inl, Bool-cases, ℕ, suc, ◌+◌, ◌≡◌, refl, sym, ◌∙◌, ap, Bool, true, false, ◌||◌, Option, none,
  some, List, [], ◌∷◌, ◌++◌, map, ◌==◌, is_some, or_else, arith, if◌then◌else◌,
}
use cmdc2api.Types.Cmdc.{CcPart, CcMessage}
use cmdc2api.Request.Marker.{
  mark, mark_parts, marked_message, mark_last, any_part_marked, any_message_marked, place,
  synthesize_cache_marker,
}

-- The parts of an envelope from its start to its end.
abbrev pub all_parts : List CcMessage → List CcPart
all_parts [] = []
all_parts (m ∷ ms) = m.content ++ all_parts ms

abbrev pub count_marks : List CcPart → ℕ
count_marks [] = 0
count_marks (p ∷ ps) =
    let rest = count_marks ps in if is_some p.cache_control then suc rest else rest

abbrev pub last_text : List CcPart → Option CcPart
last_text [] = none
last_text (p ∷ ps) = or_else (last_text ps) (if p.type == "text" then some p else none)

abbrev pub marked : Option CcPart → Option CcPart
marked none = none
marked (some p) = some (mark p)

-- An envelope without its marks.
abbrev pub unmark : CcPart → CcPart
unmark p = record p { cache_control = none }

abbrev pub unmark_message : CcMessage → CcMessage
unmark_message m = record m { content = map unmark m.content }

-- `qs` is `ps` with a mark on its last text part, which there is.
record MarksLast (ps qs : List CcPart) : Type 0 where
  there : is_some (last_text ps) ≡ true
  last_marked : last_text qs ≡ marked (last_text ps)
  one_mark : count_marks ps ≡ 0 → count_marks qs ≡ 1

abbrev PartsResult : List CcPart → Option (List CcPart) → Type 0
PartsResult ps none = last_text ps ≡ none
PartsResult ps (some qs) = MarksLast ps qs × (map unmark qs ≡ map unmark ps)

or_else-there :
    (o e : Option CcPart) (a : Option CcPart)
    → is_some o ≡ true
    → a ≡ marked o
    → (is_some (or_else o e) ≡ true) × (or_else a e ≡ marked (or_else o e))
or_else-there none e a h k = cc
or_else-there (some p) e a h k = (refl, rw k refl)

or_else-none : (o : Option CcPart) → o ≡ or_else o none
or_else-none none = refl
or_else-none (some p) = refl

or_else_assoc : (a b c : Option CcPart) → or_else (or_else a b) c ≡ or_else a (or_else b c)
or_else_assoc none b c = refl
or_else_assoc (some x) b c = refl

halves : (a b : Bool) → (a || b) ≡ false → (a ≡ false) × (b ≡ false)
halves a b h = ground arith

count_marks-zero : (b : Bool) (n : ℕ) → (if b then suc n else n) ≡ 0 → (b ≡ false) × (n ≡ 0)
count_marks-zero b n h = ground arith

mark_parts-cons :
    (p : CcPart) (ps : List CcPart) (o : Option (List CcPart))
    → PartsResult ps o
    → PartsResult (p ∷ ps) (elim o [
      | some qs ↦ some (p ∷ qs)
      | none ↦ if p.type == "text" then some (mark p ∷ ps) else none
    ])
unfolding mark
mark_parts-cons p ps none r = elim (Bool-cases (p.type == "text")) [
  | inl e ↦ rw e (mark_here e)
  | inr e ↦ rw e (simp (r, e))
]
  where
    mark_here :
        (p.type == "text") ≡ true
        → MarksLast (p ∷ ps) (mark p ∷ ps) × (map unmark (mark p ∷ ps) ≡ map unmark (p ∷ ps))
    mark_here e = (
      record {
        there = simp (r, e);
        last_marked = simp (r, e);
        one_mark = λ h. ap suc (count_marks-zero (is_some p.cache_control) (count_marks ps) h).1;
      },
      refl,
    )
mark_parts-cons p ps (some qs) (r, u) =
    let (there, last) = or_else-there (last_text ps) _ (last_text qs) r.there r.last_marked in
    (
      record {
        there = there;
        last_marked = last;
        one_mark = λ h.
            let (b, n) = count_marks-zero (is_some p.cache_control) (count_marks ps) h in
            rw b (r.one_mark n);
      },
      ap (λ z. unmark p ∷ z) u,
    )

mark_parts_lem : (ps : List CcPart) → PartsResult ps (mark_parts ps)
unfolding mark_parts
mark_parts_lem [] = refl
mark_parts_lem (p ∷ ps) = mark_parts-cons p ps (mark_parts ps) (mark_parts_lem ps)

last_text-append :
    (xs ys : List CcPart) → last_text (xs ++ ys) ≡ or_else (last_text ys) (last_text xs)
last_text-append [] ys = or_else-none (last_text ys)
last_text-append (x ∷ xs) ys =
    rw (last_text-append xs ys) (or_else_assoc (last_text ys) (last_text xs) _)

count_marks-append :
    (xs ys : List CcPart) → count_marks (xs ++ ys) ≡ count_marks xs + count_marks ys
count_marks-append [] ys = omega arith
count_marks-append (x ∷ xs) ys = ground (arith, count_marks-append xs ys)

-- The mark stands in the second half, or in the first where the second has no text.
MarksLast-behind : (xs ys zs : List CcPart) → MarksLast ys zs → MarksLast (xs ++ ys) (xs ++ zs)
MarksLast-behind xs ys zs m =
    let (there, last) =
      or_else-there (last_text ys) (last_text xs) (last_text zs) m.there m.last_marked in
    record {
      there = rw (last_text-append xs ys) there;
      last_marked = rw (last_text-append xs ys, last_text-append xs zs) last;
      one_mark = λ h.
          let (x, y) = sum-zero _ _ (sym (count_marks-append xs ys) ∙ h) in
          count_marks-append xs zs ∙ omega (arith, x, m.one_mark y);
    }
  where
    sum-zero : (m n : ℕ) → m + n ≡ 0 → (m ≡ 0) × (n ≡ 0)
    sum-zero m n h = (omega arith, omega arith)

MarksLast-before :
    (xs ys zs : List CcPart)
    → MarksLast xs zs
    → last_text ys ≡ none
    → MarksLast (xs ++ ys) (zs ++ ys)
MarksLast-before xs ys zs m n = record {
  there = rw (last_text-append xs ys, n) m.there;
  last_marked = rw (last_text-append xs ys, last_text-append zs ys, n) m.last_marked;
  one_mark = λ h.
      let (x, y) = sum-zero _ _ (sym (count_marks-append xs ys) ∙ h) in
      count_marks-append zs ys ∙ omega (arith, y, m.one_mark x);
}
  where
    sum-zero : (m n : ℕ) → m + n ≡ 0 → (m ≡ 0) × (n ≡ 0)
    sum-zero m n h = (omega arith, omega arith)

abbrev MessagesResult : List CcMessage → Option (List CcMessage) → Type 0
MessagesResult ms none = last_text (all_parts ms) ≡ none
MessagesResult ms (some ns) =
    MarksLast (all_parts ms) (all_parts ns) × (map unmark_message ns ≡ map unmark_message ms)

marked_message_lem :
    (m : CcMessage) (ms : List CcMessage) (o : Option (List CcPart))
    → last_text (all_parts ms) ≡ none
    → PartsResult m.content o
    → MessagesResult (m ∷ ms) (marked_message m ms o)
marked_message_lem m ms none n r = last_text-append m.content (all_parts ms) ∙ rw (n, r) refl
marked_message_lem m ms (some ps) n (r, u) = (
  MarksLast-before m.content (all_parts ms) ps r n,
  ap (λ z. record { role = m.role; content = z } ∷ map unmark_message ms) u,
)

mark_last-cons :
    (m : CcMessage) (ms : List CcMessage) (o : Option (List CcMessage))
    → MessagesResult ms o
    → MessagesResult
        (m ∷ ms)
        (elim o [ some ns ↦ some (m ∷ ns) | none ↦ marked_message m ms (mark_parts m.content) ])
mark_last-cons m ms none r =
    marked_message_lem m ms (mark_parts m.content) r (mark_parts_lem m.content)
mark_last-cons m ms (some ns) (r, u) =
    (MarksLast-behind m.content (all_parts ms) (all_parts ns) r, ap (λ z. unmark_message m ∷ z) u)

mark_last_lem : (ms : List CcMessage) → MessagesResult ms (mark_last ms)
unfolding mark_last
mark_last_lem [] = refl
mark_last_lem (m ∷ ms) = mark_last-cons m ms (mark_last ms) (mark_last_lem ms)

-- What the synthesis makes of an envelope without a mark.
pub record MarkedAtTail (msgs out : List CcMessage) : Type 0 where
  pub unchanged : map unmark_message out ≡ map unmark_message msgs
  pub at_tail : last_text (all_parts out) ≡ marked (last_text (all_parts msgs))
  pub only_one :
      count_marks (all_parts out) ≡ (if is_some (last_text (all_parts msgs)) then 1 else 0)

place-MarkedAtTail :
    (msgs : List CcMessage) (force : Bool) (o : Option (List CcMessage))
    → count_marks (all_parts msgs) ≡ 0
    → MessagesResult msgs o
    → MarkedAtTail msgs (place force msgs o).0
unfolding place
place-MarkedAtTail msgs force none z r = record {
  unchanged = refl;
  at_tail = rw r refl;
  only_one = rw r z;
}
place-MarkedAtTail msgs force (some out) z (r, u) = record {
  unchanged = u;
  at_tail = r.last_marked;
  only_one = rw r.there (r.one_mark z);
}

unmarked_parts : (ps : List CcPart) → any_part_marked ps ≡ false → count_marks ps ≡ 0
unmarked_parts [] h = refl
unmarked_parts (p ∷ ps) h =
    let (b, r) = halves (is_some p.cache_control) (any_part_marked ps) h in
    rw b (unmarked_parts ps r)

unmarked_messages :
    (ms : List CcMessage) → any_message_marked ms ≡ false → count_marks (all_parts ms) ≡ 0
unmarked_messages [] h = refl
unmarked_messages (m ∷ ms) h =
    let (b, r) = halves (any_part_marked m.content) (any_message_marked ms) h in
    count_marks-append m.content (all_parts ms)
    ∙ omega (arith, unmarked_parts m.content b, unmarked_messages ms r)

-- For every envelope without a mark in which a breakpoint is asked for: the synthesis changes
-- nothing but marks, the last text part of the whole envelope is marked behind it, and there is
-- exactly one mark, or none where the envelope has no text part.
pub breakpoint_at_tail :
    (msgs : List CcMessage) (force : Bool)
    → any_message_marked msgs ≡ false
    → MarkedAtTail msgs (synthesize_cache_marker msgs true force).0
unfolding synthesize_cache_marker
breakpoint_at_tail msgs force h =
    rw h (
      place-MarkedAtTail msgs force (mark_last msgs) (unmarked_messages msgs h)
        (mark_last_lem msgs))
