-- ===== src/FilePath/Laws.antt =====
-- The directory and the base name of a joined path.
use mathlib.Core.List.{foldl, foldl-append}
use mathlib.Core.Bool.{false≢true}
use phonewave.Prelude.{
  ℕ, ◌≡◌, refl, Bool, true, false, List, [], ◌∷◌, ◌++◌, arith, Text, codes, ◌==◌, split_on,
  split_on-none, split_on-append, has_rune, nat_eq, if◌then◌else◌, is_empty, ap, ◌∙◌, sym, eq_refl,
}
use phonewave.FilePath.Paths.{
  slash, push, pieces, unwind, render, clean, join, up_to_last, dir, strip_slashes, after_last,
  base,
}

-- A name of a directory's entry.
pub record IsName (n : Text) : Type 0 where
  pub no_slash : has_rune slash n ≡ false
  pub not_empty : (n == []) ≡ false
  pub not_dot : (n == codes ".") ≡ false
  pub not_dots : (n == codes "..") ≡ false

up_to_last-none : (n : Text) → has_rune slash n ≡ false → up_to_last n ≡ []
unfolding up_to_last has_rune
up_to_last-none [] h = refl
up_to_last-none (c ∷ cs) h = ground (arith, up_to_last-none cs)

append-not_empty : (xs ys : Text) (y : ℕ) → is_empty (xs ++ y ∷ ys) ≡ false
append-not_empty [] ys y = refl
append-not_empty (x ∷ xs) ys y = refl

up_to_last-append :
    (p n : Text) → has_rune slash n ≡ false → up_to_last (p ++ slash ∷ n) ≡ p ++ slash ∷ []
unfolding up_to_last
up_to_last-append [] n h = rw (up_to_last-none n h)
up_to_last-append (c ∷ cs) n h = rw (up_to_last-append cs n h) (rw (append-not_empty cs [] slash))

push-name :
    (rooted : Bool) (stack : List Text) (n : Text) → IsName n → push rooted stack n ≡ n ∷ stack
unfolding push
push-name rooted stack n h = ground arith

pieces-append :
    (c : ℕ) (p q : Text)
    → pieces ((c ∷ p) ++ slash ∷ q)
      ≡ foldl (push (nat_eq c slash)) (pieces (c ∷ p)) (split_on slash q)
unfolding pieces
pieces-append c p q =
    rw (split_on-append slash (c ∷ p) q)
      (foldl-append (push (nat_eq c slash)) [] (split_on slash (c ∷ p)) (split_on slash q))

-- A joined name goes on top of the directory's pieces.
join-name :
    (c : ℕ) (p n : Text) → IsName n → join (c ∷ p) n ≡ render (nat_eq c slash) (n ∷ pieces (c ∷ p))
unfolding join clean
join-name c p n h = rw (pieces-append c p n) (
    rw (split_on-none slash n h.no_slash)
      (ap (render (nat_eq c slash)) (push-name (nat_eq c slash) (pieces (c ∷ p)) n h)))

-- A trailing slash is cleaned away.
clean-trailing : (c : ℕ) (p : Text) → clean ((c ∷ p) ++ slash ∷ []) ≡ clean (c ∷ p)
unfolding clean
clean-trailing c p =
    ap (render (nat_eq c slash)) (pieces-append c p [] ∙ unfold push split_on ◌==◌ in refl)

up_to_last-join :
    (rooted : Bool) (t : Text) (rest : List Text) (n : Text)
    → has_rune slash n ≡ false
    → up_to_last (render rooted (n ∷ t ∷ rest)) ≡ render rooted (t ∷ rest) ++ slash ∷ []
unfolding render unwind
up_to_last-join true t rest n h = up_to_last-append (slash ∷ unwind (t ∷ rest)) n h
up_to_last-join false t rest n h = up_to_last-append (unwind (t ∷ rest)) n h

clean-render :
    (c : ℕ) (p : Text) (stack : List Text)
    → pieces (c ∷ p) ≡ stack
    → clean (c ∷ p) ≡ c ∷ p
    → render (nat_eq c slash) stack ≡ c ∷ p
unfolding clean
clean-render c p stack e k = ap (render (nat_eq c slash)) (sym e) ∙ k

clean_lone : (rooted : Bool) → clean (if rooted then slash ∷ [] else []) ≡ render rooted []
unfolding clean render pieces push split_on unwind ◌==◌
clean_lone true = refl
clean_lone false = refl

dir-render :
    (c : ℕ) (p n : Text) (stack : List Text)
    → IsName n
    → pieces (c ∷ p) ≡ stack
    → clean (c ∷ p) ≡ c ∷ p
    → dir (render (nat_eq c slash) (n ∷ stack)) ≡ c ∷ p
unfolding dir
dir-render c p n (t ∷ rest) h e k =
    let whole = clean-render c p (t ∷ rest) e k in
    rw (up_to_last-join (nat_eq c slash) t rest n h.no_slash) (rw whole (clean-trailing c p ∙ k))
dir-render c p n [] h e k =
    ap clean (lone (nat_eq c slash)) ∙ clean_lone (nat_eq c slash) ∙ clean-render c p [] e k
  where
    lone :
        (rooted : Bool) → up_to_last (render rooted (n ∷ [])) ≡ (if rooted then slash ∷ [] else [])
    lone true = unfold render unwind in up_to_last-append [] n h.no_slash
    lone false = unfold render unwind in up_to_last-none n h.no_slash

-- The directory of a joined path is the directory, if it was a cleaned one.
pub dir-join : (d n : Text) → IsName n → (d == []) ≡ false → clean d ≡ d → dir (join d n) ≡ d
dir-join [] n h ne k = absurd (false≢true (sym ne ∙ eq_refl []))
dir-join (c ∷ p) n h ne k = rw (join-name c p n h) (dir-render c p n (pieces (c ∷ p)) h refl k)

strip-cons : (c : ℕ) (n : Text) → has_rune slash (c ∷ n) ≡ false → strip_slashes (c ∷ n) ≡ c ∷ n
unfolding strip_slashes has_rune
strip-cons c [] h = ground arith
strip-cons c (d ∷ n) h = rw (strip-cons d n (ground arith))

strip-append :
    (p : Text) (c : ℕ) (n : Text)
    → has_rune slash (c ∷ n) ≡ false
    → strip_slashes (p ++ slash ∷ c ∷ n) ≡ p ++ slash ∷ c ∷ n
unfolding strip_slashes
strip-append [] c n h = rw (strip-cons c n h)
strip-append (x ∷ xs) c n h = rw (strip-append xs c n h) (rw (append-not_empty xs (c ∷ n) slash))

has_rune-append : (p n : Text) → has_rune slash (p ++ slash ∷ n) ≡ true
unfolding has_rune
has_rune-append [] n = refl
has_rune-append (c ∷ p) n = ground (arith, has_rune-append p n)

after_last-none : (n : Text) → has_rune slash n ≡ false → after_last n ≡ n
unfolding after_last
after_last-none [] h = refl
after_last-none (c ∷ n) h = rw h

after_last-append : (p n : Text) → has_rune slash n ≡ false → after_last (p ++ slash ∷ n) ≡ n
unfolding after_last
after_last-append [] n h = rw (has_rune-append [] n) (rw h)
after_last-append (c ∷ p) n h =
    rw (has_rune-append p n, has_rune-append (c ∷ p) n) (after_last-append p n h)

base-name : (n : Text) → IsName n → base n ≡ n
unfolding base
base-name [] h = absurd (false≢true (sym h.not_empty ∙ eq_refl []))
base-name (c ∷ n) h = rw (strip-cons c n h.no_slash) (rw (after_last-none (c ∷ n) h.no_slash))

base-append : (p n : Text) → IsName n → base (p ++ slash ∷ n) ≡ n
unfolding base
base-append p [] h = absurd (false≢true (sym h.not_empty ∙ eq_refl []))
base-append p (c ∷ n) h =
    rw (append-not_empty p (c ∷ n) slash)
      (rw (strip-append p c n h.no_slash) (rw (after_last-append p (c ∷ n) h.no_slash)))

base-render :
    (rooted : Bool) (n : Text) (stack : List Text) → IsName n → base (render rooted (n ∷ stack)) ≡ n
unfolding render unwind
base-render true n [] h = base-append [] n h
base-render false n [] h = base-name n h
base-render true n (t ∷ rest) h = base-append (slash ∷ unwind (t ∷ rest)) n h
base-render false n (t ∷ rest) h = base-append (unwind (t ∷ rest)) n h

-- The base name of a joined path is the name.
pub base-join : (d n : Text) → IsName n → (d == []) ≡ false → base (join d n) ≡ n
base-join [] n h ne = absurd (false≢true (sym ne ∙ eq_refl []))
base-join (c ∷ p) n h ne =
    rw (join-name c p n h) (base-render (nat_eq c slash) n (pieces (c ∷ p)) h)

pieces-name : (c : ℕ) (p : Text) → IsName (c ∷ p) → pieces (c ∷ p) ≡ (c ∷ p) ∷ []
unfolding pieces
pieces-name c p h =
    rw (split_on-none slash (c ∷ p) h.no_slash) (push-name (nat_eq c slash) [] (c ∷ p) h)

first-no_slash : (c : ℕ) (p : Text) → has_rune slash (c ∷ p) ≡ false → nat_eq c slash ≡ false
unfolding has_rune
first-no_slash c p h = ground arith

-- Two names are joined by a slash.
pub join-names : (d n : Text) → IsName d → IsName n → join d n ≡ d ++ slash ∷ n
unfolding render unwind
join-names [] n h k = absurd (false≢true (sym h.not_empty ∙ eq_refl []))
join-names (c ∷ p) n h k =
    rw (join-name c p n k) (rw (pieces-name c p h, first-no_slash c p h.no_slash) refl)
