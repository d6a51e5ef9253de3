-- ===== src/Setup/Sorting.antt =====
-- sort.Strings, and the comparison of two lists whatever their order.
use phonewave.Prelude.{
  ℕ, suc, ◌+◌, ◌≡◌, refl, sym, ap, ◌∙◌, ◌↔◌, ◌⊎◌, inl, inr, true, false, List, [], ◌∷◌, arith, Text,
  ◌==◌, eq_iff, eq_refl, eq_cases, length, if◌then◌else◌, Bool-cases, All,
}
use phonewave.Router.{text_le, insert_sorted, sort}
use phonewave.Setup.Diff.{same_texts, slices_equal}

-- How often a text is in the list.
abbrev pub count : Text → List Text → ℕ
count t [] = 0
count t (x ∷ xs) = (if x == t then 1 else 0) + count t xs

text_le_refl : (x : Text) → text_le x x ≡ true
unfolding text_le
text_le_refl [] = refl
text_le_refl (a ∷ x) = ground (arith, text_le_refl x)

text_le_total : (x y : Text) → (text_le x y ≡ true) ⊎ (text_le y x ≡ true)
unfolding text_le
text_le_total [] y = inl refl
text_le_total (a ∷ x) [] = inr refl
text_le_total (a ∷ x) (b ∷ y) = ground (arith, text_le_total x y)

text_le_trans : (x y z : Text) → text_le x y ≡ true → text_le y z ≡ true → text_le x z ≡ true
unfolding text_le
text_le_trans [] y z h k = refl
text_le_trans (a ∷ x) [] z h k = absurd (ground arith)
text_le_trans (a ∷ x) (b ∷ y) [] h k = absurd (ground arith)
text_le_trans (a ∷ x) (b ∷ y) (c ∷ z) h k = ground (arith, text_le_trans x y z)

text_le_antisym : (x y : Text) → text_le x y ≡ true → text_le y x ≡ true → x ≡ y
unfolding text_le
text_le_antisym [] [] h k = refl
text_le_antisym [] (b ∷ y) h k = absurd (ground arith)
text_le_antisym (a ∷ x) [] h k = absurd (ground arith)
text_le_antisym (a ∷ x) (b ∷ y) h k = ground (arith, text_le_antisym x y)

abbrev IsSorted : List Text → Type 0
IsSorted [] = Unit
IsSorted (x ∷ xs) = All (λ y. text_le x y ≡ true) xs × IsSorted xs

below-insert_sorted :
    (low t : Text) (xs : List Text)
    → text_le low t ≡ true
    → All (λ y. text_le low y ≡ true) xs
    → All (λ y. text_le low y ≡ true) (insert_sorted t xs)
unfolding insert_sorted
below-insert_sorted low t [] h a = (h, tt)
below-insert_sorted low t (x ∷ xs) h (hx, a) = elim (Bool-cases (text_le t x)) [
  | inl e ↦ rw e (h, (hx, a))
  | inr e ↦ rw e (hx, below-insert_sorted low t xs h a)
]

below_trans :
    (low x : Text) (xs : List Text)
    → text_le low x ≡ true
    → All (λ y. text_le x y ≡ true) xs
    → All (λ y. text_le low y ≡ true) xs
below_trans low x [] h a = tt
below_trans low x (y ∷ ys) h (hy, a) = (text_le_trans low x y h hy, below_trans low x ys h a)

insert-IsSorted : (t : Text) (xs : List Text) → IsSorted xs → IsSorted (insert_sorted t xs)
unfolding insert_sorted
insert-IsSorted t [] s = (tt, tt)
insert-IsSorted t (x ∷ xs) (low, s) = elim (Bool-cases (text_le t x)) [
  | inl e ↦ rw e ((e, below_trans t x xs e low), (low, s))
  | inr e ↦
      rw e (below-insert_sorted x t xs (above e (text_le_total t x)) low, insert-IsSorted t xs s)
]
  where
    above : text_le t x ≡ false → (text_le t x ≡ true) ⊎ (text_le x t ≡ true) → text_le x t ≡ true
    above e (inl h) = cc
    above e (inr h) = h

sort-IsSorted : (xs : List Text) → IsSorted (sort xs)
unfolding sort
sort-IsSorted [] = tt
sort-IsSorted (x ∷ xs) = insert-IsSorted x (sort xs) (sort-IsSorted xs)

count-insert : (t x : Text) (xs : List Text) → count t (insert_sorted x xs) ≡ count t (x ∷ xs)
unfolding insert_sorted
count-insert t x [] = refl
count-insert t x (y ∷ ys) = elim (Bool-cases (text_le x y)) [
  | inl e ↦ rw e refl
  | inr e ↦ rw e (omega (arith, count-insert t x ys))
]

count-sort : (t : Text) (xs : List Text) → count t (sort xs) ≡ count t xs
unfolding sort
count-sort t [] = refl
count-sort t (x ∷ xs) = omega (arith, count-insert t x (sort xs), count-sort t xs)

same_texts_iff : (xs ys : List Text) → length xs ≡ length ys → (same_texts xs ys ≡ true) ↔ (xs ≡ ys)
unfolding same_texts
same_texts_iff [] [] len = (λ h. refl, λ e. refl)
same_texts_iff [] (y ∷ ys) len = absurd (omega arith)
same_texts_iff (x ∷ xs) [] len = absurd (omega arith)
same_texts_iff (x ∷ xs) (y ∷ ys) len =
    let (sound, complete) = same_texts_iff xs ys (omega arith) in
    let (same, back) = eq_iff x y in ground (arith, sound, complete, same, back)

count_head : (x : Text) (xs : List Text) → count x (x ∷ xs) ≡ suc (count x xs)
count_head x xs = rw (eq_refl x) (omega arith)

-- Whatever is counted in a list with a least entry is not below it.
count_above :
    (low t : Text) (xs : List Text) (n : ℕ)
    → All (λ y. text_le low y ≡ true) xs
    → count t xs ≡ suc n
    → text_le low t ≡ true
count_above low t [] n a h = absurd (omega (arith, h))
count_above low t (x ∷ xs) n (hx, a) h = elim (eq_cases x t) [
  | inl e ↦ rw e at hx
  | inr ne ↦ count_above low t xs n a (omega (arith, rw ne at h))
]

head_below :
    (x y : Text) (xs ys : List Text)
    → All (λ z. text_le y z ≡ true) ys
    → count x (x ∷ xs) ≡ count x (y ∷ ys)
    → text_le y x ≡ true
head_below x y xs ys low h =
    count_above y x (y ∷ ys) (count x xs) (text_le_refl y, low) (sym h ∙ count_head x xs)

sorted_unique :
    (xs ys : List Text)
    → IsSorted xs
    → IsSorted ys
    → ((t : Text) → count t xs ≡ count t ys)
    → xs ≡ ys
sorted_unique [] [] s r h = refl
sorted_unique [] (y ∷ ys) s r h = absurd (omega (arith, h y, count_head y ys))
sorted_unique (x ∷ xs) [] s r h = absurd (omega (arith, h x, count_head x xs))
sorted_unique (x ∷ xs) (y ∷ ys) (low, s) (low', r) h =
    let e =
      text_le_antisym x y (head_below y x ys xs low (sym (h y)))
        (head_below x y xs ys low' (h x)) in
    let rest = sorted_unique xs ys s r (λ t. omega (arith, h t, ap (λ z. count t (z ∷ ys)) e)) in
    ap (λ z. z ∷ xs) e ∙ ap (λ zs. y ∷ zs) rest

length-insert : (t : Text) (xs : List Text) → length (insert_sorted t xs) ≡ suc (length xs)
unfolding insert_sorted
length-insert t [] = refl
length-insert t (x ∷ xs) = ground (arith, length-insert t xs)

length-sort : (xs : List Text) → length (sort xs) ≡ length xs
unfolding sort
length-sort [] = refl
length-sort (x ∷ xs) = omega (arith, length-insert x (sort xs), length-sort xs)

-- slicesEqual holds exactly of two lists with the same entries, each as often, in whichever order.
pub slices_equal_iff :
    (a b : List Text) → (slices_equal a b ≡ true) ↔ ((t : Text) → count t a ≡ count t b)
unfolding slices_equal
slices_equal_iff a b = (sound, complete)
  where
    opened : slices_equal a b ≡ true → (length a ≡ length b) × (same_texts (sort a) (sort b) ≡ true)
    opened h = ground (arith, h)

    sorted_length : length a ≡ length b → length (sort a) ≡ length (sort b)
    sorted_length len = omega (arith, len, length-sort a, length-sort b)

    sound : slices_equal a b ≡ true → (t : Text) → count t a ≡ count t b
    sound h t =
        let (len, same) = opened h in
        let e = (same_texts_iff (sort a) (sort b) (sorted_length len)).0 same in
        sym (count-sort t a) ∙ ap (count t) e ∙ count-sort t b

    complete : ((t : Text) → count t a ≡ count t b) → slices_equal a b ≡ true
    complete h =
        let e =
          sorted_unique (sort a) (sort b) (sort-IsSorted a) (sort-IsSorted b)
            (λ t. count-sort t a ∙ h t ∙ sym (count-sort t b)) in
        let len : length a ≡ length b = omega (arith, length-sort a, length-sort b, ap length e) in
        let same = (same_texts_iff (sort a) (sort b) (sorted_length len)).1 e in
        ground (arith, len, same)
