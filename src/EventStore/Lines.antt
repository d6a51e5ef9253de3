-- ===== src/EventStore/Lines.antt =====
-- The lines of a file: what an append leaves of them, and adds to them.
use mathlib.Core.Bool.{false≢true}
use phonewave.Prelude.{
  ℕ, ◌≡◌, refl, sym, ap, ◌∙◌, ◌⊎◌, inl, inr, true, false, Option, none, some, List, [], ◌∷◌, ◌++◌,
  append_assoc, append-nil, Text, Bool-cases, Option-cases, split_on, split_on-append,
  split_on-none, has_rune, is_empty, In, In-append_left, In-append_right,
}
use phonewave.EventStore.Events.{Event}
use phonewave.EventStore.Files.{
  Codec, AppendWorld, newline, drop_return, decode_lines, write_events,
}
use phonewave.Delivery.{take_bytes}

-- The events of a file.
abbrev pub events_of : Codec → Text → List Event
events_of codec content = (decode_lines codec.unmarshal 0 (split_on newline content)).0

-- The file is empty, or its last line is ended.
abbrev pub IsEnded : Text → Type 0
IsEnded content = (content ≡ []) ⊎ ((before : Text) × (content ≡ before ++ newline ∷ []))

decode-append :
    (unmarshal : Text → Option Event) (xs ys : List Text)
    → (decode_lines unmarshal 0 (xs ++ ys)).0
      ≡ (decode_lines unmarshal 0 xs).0 ++ (decode_lines unmarshal 0 ys).0
unfolding decode_lines
decode-append unmarshal [] ys = refl
decode-append unmarshal (x ∷ xs) ys = elim (Bool-cases (is_empty (drop_return x))) [
  | inl e ↦ rw e (decode-append unmarshal xs ys)
  | inr n ↦ rw n (elim (Option-cases (unmarshal (drop_return x))) [
    | inl none_ ↦ rw none_ (decode-append unmarshal xs ys)
    | inr (ev, some_) ↦ rw some_ (ap (λ l. ev ∷ l) (decode-append unmarshal xs ys))
  ])
]

pub events_of-nil : (codec : Codec) → events_of codec [] ≡ []
unfolding decode_lines split_on drop_return
events_of-nil codec = refl

events_of-ended :
    (codec : Codec) (before rest : Text)
    → events_of codec (before ++ newline ∷ rest) ≡ events_of codec before ++ events_of codec rest
events_of-ended codec before rest =
    ap (λ lines. (decode_lines codec.unmarshal 0 lines).0) (split_on-append newline before rest)
    ∙ decode-append codec.unmarshal (split_on newline before) (split_on newline rest)

-- What follows an ended file adds its own events.
events_of-append :
    (codec : Codec) (content rest : Text)
    → IsEnded content
    → events_of codec (content ++ rest) ≡ events_of codec content ++ events_of codec rest
events_of-append codec content rest (inl e) = rw (e, events_of-nil codec) refl
events_of-append codec content rest (inr (before, e)) = rw e (
    rw (append_assoc before (newline ∷ []) rest) (
      events_of-ended codec before rest
      ∙ ap (λ l. l ++ events_of codec rest)
          (sym (
            events_of-ended codec before []
            ∙ ap (λ l. events_of codec before ++ l) (events_of-nil codec)
            ∙ append-nil (events_of codec before)))))

-- What encoding/json promises of an event: its line has no line break and no carriage return at its
-- end, is not empty, and is read back as the event.
pub record IsEncoded (codec : Codec) (e : Event) : Type 0 where
  pub one_line : (line : Text) → codec.marshal e ≡ some line → has_rune newline line ≡ false
  pub not_empty : (line : Text) → codec.marshal e ≡ some line → is_empty line ≡ false
  pub no_return : (line : Text) → codec.marshal e ≡ some line → drop_return line ≡ line
  pub read_back : (line : Text) → codec.marshal e ≡ some line → codec.unmarshal line ≡ some e

decode_one :
    (unmarshal : Text → Option Event) (line : Text) (e : Event)
    → drop_return line ≡ line
    → is_empty line ≡ false
    → unmarshal line ≡ some e
    → (decode_lines unmarshal 0 (line ∷ [])).0 ≡ e ∷ []
unfolding decode_lines
decode_one unmarshal line e same full read =
    rw (same, decode_lines) (rw (full, decode_lines) (rw (read, decode_lines) refl))

events_of-line :
    (codec : Codec) (e : Event) (line : Text)
    → IsEncoded codec e
    → codec.marshal e ≡ some line
    → events_of codec (line ++ newline ∷ []) ≡ e ∷ []
events_of-line codec e line law m =
    events_of-ended codec line []
    ∙ ap (λ l. events_of codec line ++ l) (events_of-nil codec)
    ∙ append-nil (events_of codec line)
    ∙ alone
  where
    alone : events_of codec line ≡ e ∷ []
    alone =
        ap (λ lines. (decode_lines codec.unmarshal 0 lines).0)
          (split_on-none newline line (law.one_line line m))
        ∙ decode_one codec.unmarshal line e (law.no_return line m) (law.not_empty line m)
            (law.read_back line m)

line-IsEnded : (content line : Text) → IsEnded (content ++ (line ++ newline ∷ []))
line-IsEnded content line = inr (content ++ line, sym (append_assoc content line (newline ∷ [])))

-- Events that were in the file stay, whatever fails.
pub write_events-keeps :
    (codec : Codec) (w : AppendWorld) (es : List Event) (content : Text) (x : Event)
    → IsEnded content
    → In x (events_of codec content)
    → In x (events_of codec (write_events codec w es content).0)
unfolding write_events
write_events-keeps codec w [] content x ended at = at
write_events-keeps codec w (e ∷ es) content x ended at = by_line (codec.marshal e) refl (λ line.
    write_events-keeps codec w es (content ++ (line ++ newline ∷ [])) x (line-IsEnded content line)
      (rw (events_of-append codec content (line ++ newline ∷ []) ended)
        (In-append_left x (events_of codec content) (events_of codec (line ++ newline ∷ [])) at)))
  where
    by_cut :
        (line : Text)
        → codec.marshal e ≡ some line
        → (cut : Option ℕ) → w.cut e ≡ cut
        → In x (events_of codec (write_events codec w es (content ++ (line ++ newline ∷ []))).0)
        → In x (events_of codec (write_events codec w (e ∷ es) content).0)
    by_cut line eq none c later = rw (eq, write_events) (rw (c, write_events) later)
    by_cut line eq (some n) c later =
        rw (eq, write_events)
          (rw (c, write_events)
            (rw (events_of-append codec content (take_bytes n (line ++ newline ∷ [])) ended) (
              In-append_left x (events_of codec content)
                (events_of codec (take_bytes n (line ++ newline ∷ []))) at)))

    by_line :
        (m : Option Text)
        → codec.marshal e ≡ m
        → ((line : Text)
            → In x
                (events_of codec (write_events codec w es (content ++ (line ++ newline ∷ []))).0))
        → In x (events_of codec (write_events codec w (e ∷ es) content).0)
    by_line none eq later = rw (eq, write_events) at
    by_line (some line) eq later = by_cut line eq (w.cut e) refl (later line)

-- Where all the writes succeed, the file is ended again, and every event is in it.
pub write_events-adds :
    (codec : Codec) (w : AppendWorld) (es : List Event) (content : Text)
    → ((e : Event) → In e es → IsEncoded codec e)
    → IsEnded content
    → (write_events codec w es content).1 ≡ true
    → IsEnded (write_events codec w es content).0
      × ((e : Event) → In e es → In e (events_of codec (write_events codec w es content).0))
unfolding write_events
write_events-adds codec w [] content law ended okay = (ended, λ e at. absurd at)
write_events-adds codec w (e ∷ es) content law ended okay = by_line (codec.marshal e) refl (λ line.
    write_events-adds codec w es (content ++ (line ++ newline ∷ [])) (λ x at. law x (inr at))
      (line-IsEnded content line))
  where
    Goal : Type 0
    Goal =
        IsEnded (write_events codec w (e ∷ es) content).0
        × ((x : Event)
            → In x (e ∷ es)
            → In x (events_of codec (write_events codec w (e ∷ es) content).0))

    all_in :
        (line : Text)
        → codec.marshal e ≡ some line
        → ((x : Event)
            → In x es
            → In x
                (events_of codec (write_events codec w es (content ++ (line ++ newline ∷ []))).0))
        → (x : Event) → In x (e ∷ es)
        → In x (events_of codec (write_events codec w es (content ++ (line ++ newline ∷ []))).0)
    all_in line eq rest x (inr at) = rest x at
    all_in line eq rest x (inl same) =
        write_events-keeps codec w es (content ++ (line ++ newline ∷ [])) x
          (line-IsEnded content line)
          (rw (events_of-append codec content (line ++ newline ∷ []) ended) (
            In-append_right x (events_of codec content) (events_of codec (line ++ newline ∷ []))
              (rw (events_of-line codec e line (law e (inl refl)) eq) (inl same))))

    by_cut :
        (line : Text)
        → codec.marshal e ≡ some line
        → (cut : Option ℕ) → w.cut e ≡ cut
        → ((write_events codec w es (content ++ (line ++ newline ∷ []))).1 ≡ true
            → IsEnded (write_events codec w es (content ++ (line ++ newline ∷ []))).0
              × ((x : Event)
                  → In x es
                  → In x (
                      events_of codec
                        (write_events codec w es (content ++ (line ++ newline ∷ []))).0)))
        → Goal
    by_cut line eq (some n) c later =
        absurd (false≢true (rw (c, write_events) at (rw (eq, write_events) at okay)))
    by_cut line eq none c later =
        let (ended', rest) = later (rw (c, write_events) at (rw (eq, write_events) at okay)) in
        rw (eq, write_events) (rw (c, write_events) (ended', all_in line eq rest))

    by_line :
        (m : Option Text)
        → codec.marshal e ≡ m
        → ((line : Text)
            → (write_events codec w es (content ++ (line ++ newline ∷ []))).1 ≡ true
            → IsEnded (write_events codec w es (content ++ (line ++ newline ∷ []))).0
              × ((x : Event)
                  → In x es
                  → In x (
                      events_of codec
                        (write_events codec w es (content ++ (line ++ newline ∷ []))).0)))
        → Goal
    by_line none eq later = absurd (false≢true (rw (eq, write_events) at okay))
    by_line (some line) eq later = by_cut line eq (w.cut e) refl (later line)
