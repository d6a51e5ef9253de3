-- ===== src/Bloom/Binary.antt =====
-- MarshalBinary and UnmarshalBloomFilter.
use native.Mathlib.Nat.{pow-suc}
use phonewave.Prelude.{
  ℕ, zero, suc, ◌+◌, ◌*◌, ◌/◌, ◌^◌, ◌<◌, ◌≡◌, refl, false, some, List, [], ◌∷◌, ◌++◌, arith, Text,
  All, ltb, length, length-append,
}
use phonewave.Prelude.Words.{word}
use phonewave.Bloom.Defs.{
  BloomFilter, word_count, drop, put_bytes, get_bytes, put_words, get_words, marshal_binary,
  unmarshal_bloom_filter,
}

get_bytes-put_bytes :
    (n w : ℕ) (rest : Text) → w < 256 ^ n → get_bytes n (put_bytes n w ++ rest) ≡ w
unfolding get_bytes put_bytes
get_bytes-put_bytes zero w rest h = omega arith
get_bytes-put_bytes (suc n) w rest h =
    omega (arith, get_bytes-put_bytes n (w / 256) rest (omega (arith, pow-suc 256 n)))

drop-put_bytes : (n w : ℕ) (rest : Text) → drop n (put_bytes n w ++ rest) ≡ rest
unfolding put_bytes
drop-put_bytes zero w rest = refl
drop-put_bytes (suc n) w rest = drop-put_bytes n (w / 256) rest

length-put_bytes : (n w : ℕ) → length (put_bytes n w) ≡ n
unfolding put_bytes
length-put_bytes zero w = refl
length-put_bytes (suc n) w = omega (arith, length-put_bytes n (w / 256))

length-put_words : (ws : List ℕ) → length (put_words ws) ≡ length ws * 8
unfolding put_words
length-put_words [] = refl
length-put_words (w ∷ ws) =
    omega (
      arith,
      length-append (put_bytes 8 w) (put_words ws),
      length-put_bytes 8 w,
      length-put_words ws,
    )

get_words-put_words :
    (ws : List ℕ) → All (λ w. w < word) ws → get_words (length ws) (put_words ws) ≡ ws
unfolding get_words put_words
get_words-put_words [] h = refl
get_words-put_words (w ∷ ws) (fits, h) =
    rw
      (
        get_bytes-put_bytes 8 w (put_words ws) fits,
        drop-put_bytes 8 w (put_words ws),
        get_words-put_words ws h,
      )
      refl

-- Every number of the filter fits 64 bits, and the array is as long as m demands.
abbrev pub IsValid : BloomFilter → Type 0
IsValid bf =
    (bf.m < word)
    × (bf.num_hash < word)
    × All (λ w. w < word) bf.bits
    × (length bf.bits ≡ word_count bf.m)

unmarshal_parts :
    (content : Text) (m k : ℕ) (bits : List ℕ)
    → get_bytes 8 content ≡ m
    → get_bytes 8 (drop 8 content) ≡ k
    → get_words (word_count m) (drop 16 content) ≡ bits
    → length content ≡ 16 + word_count m * 8
    → unmarshal_bloom_filter content ≡ some (record { bits = bits; num_hash = k; m = m })
unfolding unmarshal_bloom_filter
unmarshal_parts content m k bits em ek eb el =
    let header : ltb (length content) 16 ≡ false = ground (arith, el) in
    let array : ltb (length content) (16 + word_count m * 8) ≡ false = ground (arith, el) in
    rw (header, em, array, ek, eb, unmarshal_bloom_filter) refl

drop_twice : (a b : ℕ) (rest : Text) → drop 16 (put_bytes 8 a ++ (put_bytes 8 b ++ rest)) ≡ rest
unfolding put_bytes
drop_twice a b rest = refl

-- A filter that fits 64-bit words, with an array of the length that its m demands, is read back from
-- what it was written as.
pub unmarshal-marshal :
    (bf : BloomFilter) → IsValid bf → unmarshal_bloom_filter (marshal_binary bf) ≡ some bf
unfolding unmarshal_bloom_filter marshal_binary
unmarshal-marshal bf (m_fits, k_fits, words_fit, len) =
    unmarshal_parts (marshal_binary bf) bf.m bf.num_hash bf.bits
      (get_bytes-put_bytes 8 bf.m (put_bytes 8 bf.num_hash ++ put_words bf.bits) m_fits)
      (rw (drop-put_bytes 8 bf.m (put_bytes 8 bf.num_hash ++ put_words bf.bits))
        (get_bytes-put_bytes 8 bf.num_hash (put_words bf.bits) k_fits))
      (rw (drop_twice bf.m bf.num_hash (put_words bf.bits), ← len)
        (get_words-put_words bf.bits words_fit))
      (omega (
        arith,
        len,
        length-append (put_bytes 8 bf.m) (put_bytes 8 bf.num_hash ++ put_words bf.bits),
        length-append (put_bytes 8 bf.num_hash) (put_words bf.bits),
        length-put_bytes 8 bf.m,
        length-put_bytes 8 bf.num_hash,
        length-put_words bf.bits,
      ))
