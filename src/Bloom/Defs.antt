-- ===== src/Bloom/Defs.antt =====
-- The filter. A word is a number below 2 ^ 64, a key is the list of its bytes, and none is a panic:
-- a remainder by zero, or an index out of range.
use Prim.Native.Nat.{bit_and, bit_or, bit_xor}
use phonewave.Prelude.{
  ℕ, zero, suc, ◌+◌, ◌*◌, ◌/◌, ◌%◌, ◌^◌, Bool, true, false, Option, none, some, List, [], ◌∷◌, ◌++◌,
  Text, if◌then◌else◌, nat_eq, ltb, length,
}
use phonewave.Prelude.Words.{word, add}

pub record BloomFilter : Type 0 where
  pub bits : List ℕ
  pub num_hash : ℕ
  pub m : ℕ

abbrev pub offset64 : ℕ
offset64 = 14695981039346656037

abbrev pub prime64 : ℕ
prime64 = 1099511628211

-- a * b on uint64
unfoldable pub mul : ℕ → ℕ → ℕ
mul a b = (a * b) % word

-- The FNV-1a loop of hash.
unfoldable pub fnv : ℕ → Text → ℕ
unfolding mul
fnv h [] = h
fnv h (b ∷ content) = fnv (mul (bit_xor h b) prime64) content

-- h2 = (h2 >> 33) ^ h2
unfoldable pub fold_high : ℕ → ℕ
fold_high h = bit_xor (h / 2 ^ 33) h

-- The second hash, from the first.
unfoldable pub mix : ℕ → ℕ
unfolding mul fold_high
mix h = fold_high (mul (fold_high (mul (fold_high h) 0xff51afd7ed558ccd)) 0xc4ceb9fe1a85ec53)

unfoldable pub hash : Text → ℕ × ℕ
unfolding fnv mix
hash content = let h1 = fnv offset64 content in (h1, mix h1)

-- (m + 63) / 64, with wrap-around
unfoldable pub word_count : ℕ → ℕ
word_count m = add m 63 / 64

abbrev pub zeros : ℕ → List ℕ
zeros zero = []
zeros (suc n) = 0 ∷ zeros n

-- NewBloomFilter from the sizes on, which optimalM and optimalK compute in floating point.
unfoldable pub new_bloom_filter : ℕ → ℕ → BloomFilter
unfolding word_count
new_bloom_filter m k = record { bits = zeros (word_count m); num_hash = k; m = m }

-- bits[i] |= 1 << b
unfoldable pub set_bit : ℕ → ℕ → List ℕ → Option (List ℕ)
set_bit i b [] = none
set_bit zero b (w ∷ ws) = some (bit_or w (2 ^ b) ∷ ws)
set_bit (suc i) b (w ∷ ws) = elim (set_bit i b ws) [ none ↦ none | some rest ↦ some (w ∷ rest) ]

-- bits[i] & (1 << b) != 0
unfoldable pub get_bit : ℕ → ℕ → List ℕ → Option Bool
get_bit i b [] = none
get_bit zero b (w ∷ ws) = some (if nat_eq (bit_and w (2 ^ b)) 0 then false else true)
get_bit (suc i) b (w ∷ ws) = get_bit i b ws

-- h1 + i * h2
unfoldable pub probe : ℕ × ℕ → ℕ → ℕ
unfolding mul
probe (h1, h2) i = add h1 (mul i h2)

-- The loop of Add, from i on, with n rounds to go.
unfoldable pub add_rounds : ℕ → ℕ → ℕ × ℕ → ℕ → List ℕ → Option (List ℕ)
unfolding set_bit probe
add_rounds zero i hs m bits = some bits
add_rounds (suc n) i hs zero bits = none
add_rounds (suc n) i hs (suc m) bits =
    let pos = probe hs i % suc m in
    elim (set_bit (pos / 64) (pos % 64) bits) [
      | none ↦ none
      | some bits' ↦ add_rounds n (i + 1) hs (suc m) bits'
    ]

-- Add
unfoldable pub add_key : Text → BloomFilter → Option BloomFilter
unfolding hash add_rounds
add_key key bf = elim (add_rounds bf.num_hash 0 (hash key) bf.m bf.bits) [
  | none ↦ none
  | some bits ↦ some (record bf { bits = bits })
]

-- The loop of MayContain, from i on, with n rounds to go.
unfoldable pub test_rounds : ℕ → ℕ → ℕ × ℕ → ℕ → List ℕ → Option Bool
unfolding get_bit probe
test_rounds zero i hs m bits = some true
test_rounds (suc n) i hs zero bits = none
test_rounds (suc n) i hs (suc m) bits =
    let pos = probe hs i % suc m in
    elim (get_bit (pos / 64) (pos % 64) bits) [
      | none ↦ none
      | some false ↦ some false
      | some true ↦ test_rounds n (i + 1) hs (suc m) bits
    ]

-- MayContain
unfoldable pub may_contain : Text → BloomFilter → Option Bool
unfolding hash test_rounds
may_contain key bf = test_rounds bf.num_hash 0 (hash key) bf.m bf.bits

-- binary.LittleEndian.PutUint64, the lowest n bytes
unfoldable pub put_bytes : ℕ → ℕ → Text
put_bytes zero w = []
put_bytes (suc n) w = w % 256 ∷ put_bytes n (w / 256)

-- binary.LittleEndian.Uint64 of the first n bytes
unfoldable pub get_bytes : ℕ → Text → ℕ
get_bytes zero content = 0
get_bytes (suc n) [] = 0
get_bytes (suc n) (b ∷ content) = b + 256 * get_bytes n content

abbrev pub drop : ℕ → Text → Text
drop zero t = t
drop (suc n) [] = []
drop (suc n) (c ∷ cs) = drop n cs

unfoldable pub put_words : List ℕ → Text
unfolding put_bytes
put_words [] = []
put_words (w ∷ ws) = put_bytes 8 w ++ put_words ws

-- MarshalBinary
unfoldable pub marshal_binary : BloomFilter → Text
marshal_binary bf = put_bytes 8 bf.m ++ (put_bytes 8 bf.num_hash ++ put_words bf.bits)

unfoldable pub get_words : ℕ → Text → List ℕ
unfolding get_bytes
get_words zero content = []
get_words (suc n) content = get_bytes 8 content ∷ get_words n (drop 8 content)

-- UnmarshalBloomFilter; none is errBloomCorrupt
unfoldable pub unmarshal_bloom_filter : Text → Option BloomFilter
unfolding get_bytes get_words word_count
unmarshal_bloom_filter content =
    if ltb (length content) 16
    then none
    else let m = get_bytes 8 content in
      let words = word_count m in
      if ltb (length content) (16 + words * 8)
      then none
      else some (record {
        bits = get_words words (drop 16 content);
        num_hash = get_bytes 8 (drop 8 content);
        m = m;
      })
