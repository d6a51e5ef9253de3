-- ===== src/Bloom/Members.antt =====
-- Add and MayContain as a set: what has been added is found.
use native.Mathlib.Nat.{mod-lt, zero-lt-suc}
use phonewave.Prelude.{
  ℕ, zero, suc, ◌+◌, ◌*◌, ◌/◌, ◌%◌, ◌≤◌, ◌<◌, ◌≡◌, refl, ◌⊎◌, inl, inr, Bool, true, false, Option,
  none, some, List, [], ◌∷◌, arith, Text, In, length,
}
use phonewave.Prelude.Words.{word, add}
use phonewave.Bloom.Defs.{
  BloomFilter, word_count, zeros, new_bloom_filter, get_bit, probe, hash, add_rounds, add_key,
  test_rounds, may_contain,
}
use phonewave.Bloom.Growing.{Grows, set_bit_lem, Grows-trans, test_rounds-Grows}

-- The array has room for every position.
abbrev HasRoom : ℕ → List ℕ → Type 0
HasRoom m bits = (0 < m) × (m ≤ 64 * length bits)

probe_room : (n m : ℕ) (bits : List ℕ) → HasRoom (suc m) bits → n % suc m / 64 < length bits
probe_room n m bits room = omega (arith, mod-lt n (zero-lt-suc m), room.1)

add_rounds_lem :
    (n i : ℕ) (hs : ℕ × ℕ) (m : ℕ) (bits : List ℕ)
    → HasRoom m bits
    → (after : List ℕ) × (add_rounds n i hs m bits ≡ some after)
      × Grows bits after
      × (test_rounds n i hs m after ≡ some true)
unfolding add_rounds test_rounds
add_rounds_lem zero i hs m bits room = (bits, refl, (refl, λ j c h. h), refl)
add_rounds_lem (suc n) i hs zero bits room = absurd (omega (arith, room.0))
add_rounds_lem (suc n) i hs (suc m) bits room =
    let pos = probe hs i % suc m in
    let (set, eq, grows, here) =
      set_bit_lem (pos / 64) (pos % 64) bits (probe_room (probe hs i) m bits room) in
    let (after, eq', grows', found) =
      add_rounds_lem n (i + 1) hs (suc m) set (omega (arith, grows.0, room)) in
    (
      after,
      rw (eq, add_rounds) eq',
      Grows-trans bits set after grows grows',
      rw (grows'.1 (pos / 64) (pos % 64) here, test_rounds) found,
    )

get_bit_total :
    (i b : ℕ) (bits : List ℕ) → i < length bits → (r : Bool) × (get_bit i b bits ≡ some r)
unfolding get_bit
get_bit_total i b [] h = absurd (omega arith)
get_bit_total zero b (w ∷ ws) h = (_, refl)
get_bit_total (suc i) b (w ∷ ws) h = get_bit_total i b ws (omega arith)

test_rounds_total :
    (n i : ℕ) (hs : ℕ × ℕ) (m : ℕ) (bits : List ℕ)
    → HasRoom m bits
    → (r : Bool) × (test_rounds n i hs m bits ≡ some r)
unfolding test_rounds
test_rounds_total zero i hs m bits room = (true, refl)
test_rounds_total (suc n) i hs zero bits room = absurd (omega (arith, room.0))
test_rounds_total (suc n) i hs (suc m) bits room =
    let pos = probe hs i % suc m in
    let later = test_rounds_total n (i + 1) hs (suc m) bits room in
    let (bit, eq) =
      get_bit_total (pos / 64) (pos % 64) bits (probe_room (probe hs i) m bits room) in
    rw (eq, test_rounds) (either bit later)
  where
    either :
        {o : Option Bool} (bit : Bool)
        → (r : Bool) × (o ≡ some r)
        → (r : Bool) × ((elim bit [ false ↦ some false | true ↦ o ]) ≡ some r)
    either false later = (false, refl)
    either true later = later

-- The filter stands for a set of keys: it answers for every key, and for these it answers true.
abbrev pub Represents : (Text → Type 0) → BloomFilter → Type 0
Represents keys bf =
    HasRoom bf.m bf.bits
    × ((key : Text) → keys key → may_contain key bf ≡ some true)
    × ((key : Text) → (answer : Bool) × (may_contain key bf ≡ some answer))

may_contain_total :
    (bf : BloomFilter)
    → HasRoom bf.m bf.bits
    → (key : Text) → (answer : Bool) × (may_contain key bf ≡ some answer)
unfolding may_contain
may_contain_total bf room key = test_rounds_total bf.num_hash 0 (hash key) bf.m bf.bits room

length-zeros : (n : ℕ) → length (zeros n) ≡ n
length-zeros zero = refl
length-zeros (suc n) = omega (arith, length-zeros n)

new-Represents : (m k : ℕ) → 0 < m → m + 63 < word → Represents (λ key. ⊥) (new_bloom_filter m k)
unfolding new_bloom_filter word_count add
new-Represents m k h fits = (room, λ key i. absurd i, may_contain_total (new_bloom_filter m k) room)
  where
    room : HasRoom m (zeros (word_count m))
    room = (h, omega (arith, length-zeros (word_count m)))

found-Grows :
    (key : Text) (keys : Text → Type 0) (bf : BloomFilter) (bits : List ℕ)
    → Grows bf.bits bits
    → ((asked : Text) → keys asked → may_contain asked bf ≡ some true)
    → may_contain key (record bf { bits = bits }) ≡ some true
    → (asked : Text) → (asked ≡ key) ⊎ keys asked
    → may_contain asked (record bf { bits = bits }) ≡ some true
unfolding may_contain
found-Grows key keys bf bits grows found here asked (inl e) = rw e here
found-Grows key keys bf bits grows found here asked (inr k) =
    test_rounds-Grows bf.num_hash 0 (hash asked) bf.m bf.bits bits grows (found asked k)

-- Add takes the representation of a set to that of the set with the key.
pub add_key-Represents :
    (key : Text) (keys : Text → Type 0) (bf : BloomFilter)
    → Represents keys bf
    → (after : BloomFilter) × (add_key key bf ≡ some after)
      × Represents (λ asked. (asked ≡ key) ⊎ keys asked) after
unfolding add_key
add_key-Represents key keys bf (room, found, total) =
    let (bits, eq, grows, here) = add_rounds_lem bf.num_hash 0 (hash key) bf.m bf.bits room in
    let room' : HasRoom bf.m bits = omega (arith, room, grows.0) in
    (
      record bf { bits = bits },
      rw (eq, add_key) refl,
      (
        room',
        found-Grows key keys bf bits grows found (unfold may_contain in here),
        may_contain_total (record bf { bits = bits }) room',
      ),
    )

-- Add of one key after the other.
unfoldable pub add_keys : List Text → BloomFilter → Option BloomFilter
add_keys [] bf = some bf
add_keys (key ∷ keys) bf = elim (add_key key bf) [ none ↦ none | some bf' ↦ add_keys keys bf' ]

-- The order in which sets are joined does not matter.
pub Represents-weaken :
    (a b : Text → Type 0) (bf : BloomFilter)
    → ((key : Text) → b key → a key)
    → Represents a bf
    → Represents b bf
Represents-weaken a b bf sub (room, found, total) = (room, λ key k. found key (sub key k), total)

pub add_keys-Represents :
    (keys : List Text) (set : Text → Type 0) (bf : BloomFilter)
    → Represents set bf
    → (after : BloomFilter) × (add_keys keys bf ≡ some after)
      × Represents (λ key. In key keys ⊎ set key) after
unfolding add_keys
add_keys-Represents [] set bf r =
    (bf, refl, Represents-weaken set (λ key. In key [] ⊎ set key) bf (λ key k. none_in k) r)
  where
    none_in : {key : Text} → In key [] ⊎ set key → set key
    none_in (inl i) = absurd i
    none_in (inr k) = k
add_keys-Represents (key ∷ keys) set bf r =
    let (bf', eq, r') = add_key-Represents key set bf r in
    let (after, eq', r'') = add_keys-Represents keys (λ asked. (asked ≡ key) ⊎ set asked) bf' r' in
    (
      after,
      rw (eq, add_keys) eq',
      Represents-weaken (λ asked. In asked keys ⊎ ((asked ≡ key) ⊎ set asked))
          (λ asked. In asked (key ∷ keys) ⊎ set asked) after (λ asked k. regroup k) r'',
    )
  where
    regroup :
        {asked : Text}
        → In asked (key ∷ keys) ⊎ set asked
        → In asked keys ⊎ ((asked ≡ key) ⊎ set asked)
    regroup (inl (inl e)) = inr (inl e)
    regroup (inl (inr i)) = inl i
    regroup (inr k) = inr (inr k)

-- The filter refines a set of keys: one made with a positive number of bits, below 2 ^ 64 - 63, takes
-- every sequence of Adds without a panic, then answers for every key without a panic, and answers
-- true for each key that was added, whatever was added in between.
pub add_keys-new :
    (m k : ℕ) (keys : List Text)
    → 0 < m
    → m + 63 < word
    → (after : BloomFilter) × (add_keys keys (new_bloom_filter m k) ≡ some after)
      × Represents (λ key. In key keys) after
add_keys-new m k keys h fits =
    let (after, eq, r) =
      add_keys-Represents keys (λ key. ⊥) (new_bloom_filter m k) (new-Represents m k h fits) in
    (
      after,
      eq,
      Represents-weaken (λ key. In key keys ⊎ ⊥) (λ key. In key keys) after (λ key i. inl i) r,
    )
