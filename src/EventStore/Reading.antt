-- ===== src/EventStore/Reading.antt =====
-- What a load reads of a directory.
use mathlib.Core.Bool.{false≢true}
use mathlib.Core.Path.{subst}
use phonewave.Prelude.{
  ◌∙◌, ℕ, ◌≡◌, refl, sym, ◌↔◌, inl, inr, true, false, ◌&&◌, Option, none, some, List, [], ◌∷◌, ◌++◌,
  Text, eq_cases, Bool-cases, In, In-append_left, In-append_right, In-append_cases, Dict, lookup,
  get_or, keys,
}
use phonewave.Router.{sort}
use phonewave.Router.Orphans.Sets.{sort_iff}
use phonewave.EventStore.Events.{Event}
use phonewave.EventStore.Files.{
  Codec, LoadWorld, LoadResult, jsonl, has_suffix, event_files, read_files, load_events,
}
use phonewave.EventStore.Lines.{events_of, events_of-nil}
use phonewave.EventStore.Appending.{Stored}
use phonewave.EventStore.Ordering.{IsAscending, sort_by-IsAscending, sort_by_iff}

module _ (codec : Codec) (files : Dict Text) where
  content_of : Text → Text
  content_of name = get_or [] (lookup name files)

  -- The event is in one of the named files.
  abbrev InNamed : List Text → Event → Type 0
  InNamed names e =
      (name : Text) × In name names × In e (events_of codec (get_or [] (lookup name files)))

  abbrev ReadAs : List Text → Option (List Event × ℕ) → Type 0
  ReadAs names none = Unit
  ReadAs names (some (events, corrupt)) = (e : Event) → In e events ↔ InNamed names e

  read_files-ReadAs :
      (w : LoadWorld) (names : List Text) → ReadAs names (read_files codec w 0 files names)
  unfolding read_files
  read_files-ReadAs w [] = λ e. (λ at. absurd at, λ (name, at, m). absurd at)
  read_files-ReadAs w (name ∷ names) =
      by_rest (read_files codec w 0 files names) refl (read_files-ReadAs w names)
    where
      own : List Event
      own = events_of codec (get_or [] (lookup name files))

      joined :
          (more : List Event)
          → ((e : Event) → In e more ↔ InNamed names e)
          → (e : Event) → In e (own ++ more) ↔ InNamed (name ∷ names) e
      joined more rest e = (there, back)
        where
          there : In e (own ++ more) → InNamed (name ∷ names) e
          there h = elim (In-append_cases e own more h) [
            | inl l ↦ (name, inl refl, l)
            | inr r ↦ let (n, at, m) = (rest e).0 r in (n, inr at, m)
          ]

          back : InNamed (name ∷ names) e → In e (own ++ more)
          back (n, inl eq, m) =
              In-append_left e own more
                (subst (λ k. In e (events_of codec (get_or [] (lookup k files)))) eq m)
          back (n, inr at, m) = In-append_right e own more ((rest e).1 (n, at, m))

      by_rest :
          (rest : Option (List Event × ℕ))
          → read_files codec w 0 files names ≡ rest
          → ReadAs names rest
          → ReadAs (name ∷ names) (read_files codec w 0 files (name ∷ names))
      by_rest none eq h = elim (Bool-cases (w.opens name && w.scans name)) [
        | inr n ↦ rw (n, read_files) tt
        | inl y ↦ rw (y, read_files) (rw (eq, read_files) tt)
      ]
      by_rest (some (more, bad)) eq h = elim (Bool-cases (w.opens name && w.scans name)) [
        | inr n ↦ rw (n, read_files) tt
        | inl y ↦ rw (y, read_files) (rw (eq, read_files) (joined more h))
      ]

event_files_iff :
    (names : List Text) (name : Text)
    → In name (event_files names) ↔ (In name names × (has_suffix name jsonl ≡ true))
unfolding event_files
event_files_iff [] name = (λ at. absurd at, λ (at, h). absurd at)
event_files_iff (n ∷ names) name = elim (Bool-cases (has_suffix n jsonl)) [
  | inl y ↦ rw y (taken y (event_files_iff names name))
  | inr f ↦ rw f (left f (event_files_iff names name))
]
  where
    taken :
        has_suffix n jsonl ≡ true
        → In name (event_files names) ↔ (In name names × (has_suffix name jsonl ≡ true))
        → In name (n ∷ event_files names) ↔ (In name (n ∷ names) × (has_suffix name jsonl ≡ true))
    taken y (sound, complete) = (there, back)
      where
        there :
            In name (n ∷ event_files names) → In name (n ∷ names) × (has_suffix name jsonl ≡ true)
        there (inl e) = (inl e, rw e y)
        there (inr at) = let (m, h) = sound at in (inr m, h)

        back :
            In name (n ∷ names) × (has_suffix name jsonl ≡ true) → In name (n ∷ event_files names)
        back (inl e, h) = inl e
        back (inr at, h) = inr (complete (at, h))

    left :
        has_suffix n jsonl ≡ false
        → In name (event_files names) ↔ (In name names × (has_suffix name jsonl ≡ true))
        → In name (event_files names) ↔ (In name (n ∷ names) × (has_suffix name jsonl ≡ true))
    left f (sound, complete) = (there, back)
      where
        there : In name (event_files names) → In name (n ∷ names) × (has_suffix name jsonl ≡ true)
        there at = let (m, h) = sound at in (inr m, h)

        back : In name (n ∷ names) × (has_suffix name jsonl ≡ true) → In name (event_files names)
        back (inl e, h) = absurd (false≢true (sym f ∙ subst (λ k. has_suffix k jsonl ≡ true) e h))
        back (inr at, h) = complete (at, h)

-- A file with an event is among the keys.
stored-key :
    (codec : Codec) (files : Dict Text) (name : Text) (e : Event)
    → In e (events_of codec (get_or [] (lookup name files)))
    → In name (keys files)
unfolding lookup
stored-key codec [] name e m = absurd (subst (λ l. In e l) (events_of-nil codec) m)
stored-key codec ((k, c) ∷ files) name e m = elim (eq_cases k name) [
  | inl same ↦ inl (sym same)
  | inr differ ↦ inr (stored-key codec files name e (rw differ at m))
]

-- What loadEvents gives: the stored events, by their time.
abbrev pub LoadedAs : Codec → Dict Text → Option (List Event × LoadResult) → Type 0
LoadedAs codec files none = Unit
LoadedAs codec files (some (events, result)) =
    IsAscending (λ e. e.timestamp) events × ((e : Event) → In e events ↔ Stored codec files e)

pub load_events-LoadedAs :
    (codec : Codec) (w : LoadWorld) (files : Dict Text)
    → LoadedAs codec files (load_events codec w 0 files)
unfolding load_events
load_events-LoadedAs codec w files =
    by_read (read_files codec w 0 files names) refl (read_files-ReadAs codec files w names)
  where
    names : List Text
    names = sort (event_files (keys files))

    there : (e : Event) → InNamed codec files names e → Stored codec files e
    there e (name, at, m) =
        let kept = (sort_iff (event_files (keys files)) name).0 at in
        (name, ((event_files_iff (keys files) name).0 kept).1, m)

    back : (e : Event) → Stored codec files e → InNamed codec files names e
    back e (name, suffix, m) =
        let kept =
          (event_files_iff (keys files) name).1 (stored-key codec files name e m, suffix) in
        (name, (sort_iff (event_files (keys files)) name).1 kept, m)

    by_read :
        (r : Option (List Event × ℕ))
        → read_files codec w 0 files names ≡ r
        → ReadAs codec files names r
        → LoadedAs codec files (load_events codec w 0 files)
    by_read none eq h = elim (Bool-cases w.listed) [
      | inr n ↦ rw (n, load_events) tt
      | inl y ↦ rw (y, load_events) (rw (eq, load_events) tt)
    ]
    by_read (some (events, corrupt)) eq h = elim (Bool-cases w.listed) [
      | inr n ↦ rw (n, load_events) tt
      | inl y ↦
          rw (y, load_events)
            (rw (eq, load_events)
              (
                sort_by-IsAscending (λ e. e.timestamp) events,
                λ e. (
                  λ at. there e ((h e).0 ((sort_by_iff (λ x. x.timestamp) e events).0 at)),
                  λ m. (sort_by_iff (λ x. x.timestamp) e events).1 ((h e).1 (back e m)),
                ),
              ))
    ]

-- The directory can be listed, and every file read.
abbrev pub LoadsAll : LoadWorld → Type 0
LoadsAll w = (w.listed ≡ true) × ((name : Text) → (w.opens name && w.scans name) ≡ true)

abbrev pub Returns {ℓ} : {A : Type ℓ} → Option A → Type 0
Returns none = ⊥
Returns (some a) = Unit

pub returned {ℓ} : {A : Type ℓ} (o : Option A) → Returns o → (a : A) × (o ≡ some a)
returned none h = absurd h
returned (some a) h = (a, refl)

read_files_total :
    (codec : Codec) (w : LoadWorld) (files : Dict Text) (names : List Text)
    → LoadsAll w
    → Returns (read_files codec w 0 files names)
unfolding read_files
read_files_total codec w files [] all = tt
read_files_total codec w files (name ∷ names) all =
    let (rest, eq) =
      returned (read_files codec w 0 files names) (read_files_total codec w files names all) in
    rw (all.1 name, read_files) (rw (eq, read_files) tt)

pub load_events_total :
    (codec : Codec) (w : LoadWorld) (files : Dict Text)
    → LoadsAll w
    → Returns (load_events codec w 0 files)
unfolding load_events
load_events_total codec w files all =
    let names = sort (event_files (keys files)) in
    let (r, eq) =
      returned (read_files codec w 0 files names) (read_files_total codec w files names all) in
    rw (all.0, load_events) (rw (eq, load_events) tt)
