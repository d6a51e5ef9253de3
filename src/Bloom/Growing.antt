-- ===== src/Bloom/Growing.antt =====
-- The array of bits only grows: set_bit keeps its length and the bits that are set.
use Prim.Native.Nat.{bit_or}
use phonewave.Prelude.{
  ℕ, zero, suc, ◌+◌, ◌/◌, ◌%◌, ◌^◌, ◌<◌, ◌≡◌, refl, Bool, true, false, Option, none, some, List, [],
  ◌∷◌, arith, length,
}
use phonewave.Bloom.Bits.{test_bit, test_bit-or, test_bit-pow, bit_and-test}
use phonewave.Bloom.Defs.{set_bit, get_bit, probe, test_rounds}

-- The array keeps its length and its bits.
abbrev pub Grows : List ℕ → List ℕ → Type 0
Grows before after =
    (length after ≡ length before)
    × ((i b : ℕ) → get_bit i b before ≡ some true → get_bit i b after ≡ some true)

some_inj : {a b : Bool} → some a ≡ some b → a ≡ b
some_inj h = ground arith

get_bit_head : (b w : ℕ) (ws : List ℕ) → get_bit 0 b (w ∷ ws) ≡ some (test_bit b w)
unfolding get_bit
get_bit_head b w ws = rw (bit_and-test b w) refl

Grows-cons : (w : ℕ) (ws ws' : List ℕ) → Grows ws ws' → Grows (w ∷ ws) (w ∷ ws')
unfolding get_bit
Grows-cons w ws ws' (len, keeps) = (omega (arith, len), kept)
  where
    kept : (i b : ℕ) → get_bit i b (w ∷ ws) ≡ some true → get_bit i b (w ∷ ws') ≡ some true
    kept zero b h = h
    kept (suc i) b h = keeps i b h

or-true : (k a b : ℕ) → test_bit k a ≡ true → test_bit k (bit_or a b) ≡ true
or-true k a b h = rw (test_bit-or k a b) (rw h refl)

pow-or-true : (k a : ℕ) → test_bit k (bit_or a (2 ^ k)) ≡ true
pow-or-true k a = rw (test_bit-or k a (2 ^ k), test_bit-pow k) (ground arith)

Grows-or : (b w : ℕ) (ws : List ℕ) → Grows (w ∷ ws) (bit_or w (2 ^ b) ∷ ws)
Grows-or b w ws = (refl, kept)
  where
    kept :
        (j c : ℕ)
        → get_bit j c (w ∷ ws) ≡ some true
        → get_bit j c (bit_or w (2 ^ b) ∷ ws) ≡ some true
    kept zero c h =
        rw (get_bit_head c (bit_or w (2 ^ b)) ws)
          (rw (or-true c w (2 ^ b) (some_inj (rw (get_bit_head c w ws) at h))) refl)
    kept (suc j) c h = unfold get_bit in h

-- A bit within the array can be set, and then it is.
pub set_bit_lem :
    (i b : ℕ) (bits : List ℕ)
    → i < length bits
    → (after : List ℕ) × (set_bit i b bits ≡ some after)
      × Grows bits after
      × (get_bit i b after ≡ some true)
unfolding set_bit get_bit
set_bit_lem i b [] h = absurd (omega arith)
set_bit_lem zero b (w ∷ ws) h = (
  bit_or w (2 ^ b) ∷ ws,
  refl,
  Grows-or b w ws,
  rw (get_bit_head b (bit_or w (2 ^ b)) ws) (rw (pow-or-true b w) refl),
)
set_bit_lem (suc i) b (w ∷ ws) h =
    let (after, eq, grows, here) = set_bit_lem i b ws (omega arith) in
    (w ∷ after, rw (eq, set_bit) refl, Grows-cons w ws after grows, here)

pub Grows-trans : (a b c : List ℕ) → Grows a b → Grows b c → Grows a c
Grows-trans a b c (l, k) (l', k') = (omega (arith, l, l'), λ i j h. k' i j (k i j h))

-- What is found stays found.
pub test_rounds-Grows :
    (n i : ℕ) (hs : ℕ × ℕ) (m : ℕ) (before after : List ℕ)
    → Grows before after
    → test_rounds n i hs m before ≡ some true
    → test_rounds n i hs m after ≡ some true
unfolding test_rounds
test_rounds-Grows zero i hs m before after g h = refl
test_rounds-Grows (suc n) i hs zero before after g h = h
test_rounds-Grows (suc n) i hs (suc m) before after g h =
    go (test_rounds-Grows n (i + 1) hs (suc m) before after g)
      (get_bit (pos / 64) (pos % 64) before) refl
  where
    pos : ℕ
    pos = probe hs i % suc m

    go :
        (test_rounds n (i + 1) hs (suc m) before ≡ some true
          → test_rounds n (i + 1) hs (suc m) after ≡ some true)
        → (r : Option Bool) → get_bit (pos / 64) (pos % 64) before ≡ r
        → test_rounds (suc n) i hs (suc m) after ≡ some true
    go later none eq = absurd (ground (arith, rw (eq, test_rounds) at h))
    go later (some false) eq = absurd (ground (arith, rw (eq, test_rounds) at h))
    go later (some true) eq =
        rw (g.1 (pos / 64) (pos % 64) eq, test_rounds) (later (rw (eq, test_rounds) at h))
