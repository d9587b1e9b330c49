-- ===== src/Runtime/Tags.antt =====
-- runtime/HashTables.cpp and runtime/NewHashTables.cpp: the one-byte slot tags.
use inkfuse.Base.{
  ℕ, ◌-◌, ◌/◌, ◌%◌, ◌^◌, ◌<◌, ◌≡◌, refl, Bool, true, false, not, ◌&&◌, ◌||◌, arith, ltb, leb, ◌==◌,
  bit_and, bit_or, bit_xor,
}
use inkfuse.Base.Bits.{every_below, every_below-lt}

abbrev pub tag_fill_mask : ℕ
tag_fill_mask = 128

abbrev pub fingerprint_inversion_mask : ℕ
fingerprint_inversion_mask = tag_fill_mask - 1

abbrev pub tag_hash_mask : ℕ
tag_hash_mask = tag_fill_mask - 1

-- `tag & tag_fill_mask`, read as a condition
unfoldable pub is_filled : ℕ → Bool
is_filled tag = not (bit_and tag tag_fill_mask == 0)

-- `static_cast<uint8_t>(hash >> 56ul)`
unfoldable pub hash_byte : ℕ → ℕ
hash_byte hash = hash / 2 ^ 56 % 2 ^ 8

-- the tag of a filled slot
unfoldable pub fill_tag : ℕ → ℕ
fill_tag hash = bit_or tag_fill_mask (hash_byte hash)

-- `tag & tag_hash_mask`
unfoldable pub tag_hash : ℕ → ℕ
tag_hash tag = bit_and tag tag_hash_mask

-- `tag_hash_mask & static_cast<uint8_t>(hash >> 56ul)`
unfoldable pub target_tag : ℕ → ℕ
target_tag hash = bit_and tag_hash_mask (hash_byte hash)

-- `tag ^ fingerprint_inversion_mask`
unfoldable pub invert_tag : ℕ → ℕ
invert_tag tag = bit_xor tag fingerprint_inversion_mask

-- The tags of tables for outer joins: one bit less for the fingerprint, and a bit that marks a row
-- which found a join partner.
abbrev pub outer_tag_fill_mask : ℕ
outer_tag_fill_mask = 64

abbrev pub outer_tag_hash_mask : ℕ
outer_tag_hash_mask = outer_tag_fill_mask - 1

-- `(tag & outer_tag_fill_mask) != 0`
unfoldable pub is_marked : ℕ → Bool
is_marked tag = not (bit_and tag outer_tag_fill_mask == 0)

-- `outer_tag_hash_mask & static_cast<uint8_t>(hash >> 56ul)`
unfoldable pub outer_target : ℕ → ℕ
outer_target hash = bit_and outer_tag_hash_mask (hash_byte hash)

-- `outer_tag_hash_mask & curr_tag`
unfoldable pub outer_fingerprint : ℕ → ℕ
outer_fingerprint tag = bit_and outer_tag_hash_mask tag

-- the tag that `insertOuter` writes, with the mark cleared
unfoldable pub outer_fill_tag : ℕ → ℕ
outer_fill_tag hash = bit_or tag_fill_mask (outer_target hash)

-- `tag_fill_mask | outer_tag_fill_mask | target_tag`
unfoldable pub outer_marked_tag : ℕ → ℕ
outer_marked_tag hash = bit_or (bit_or tag_fill_mask outer_tag_fill_mask) (outer_target hash)

hash_byte-lt : (hash : ℕ) → hash_byte hash < 256
unfolding hash_byte
hash_byte-lt hash = omega arith

fill_table :
    every_below 256 (λ b.
      is_filled (bit_or tag_fill_mask b)
      && (tag_hash (bit_or tag_fill_mask b) == bit_and tag_hash_mask b)
      && ltb (bit_or tag_fill_mask b) 256)
    ≡ true
unfolding every_below is_filled tag_hash
fill_table = refl

invert_table :
    every_below 256 (λ t.
      (ltb (invert_tag t) 256)
      && not (tag_hash (invert_tag t) == tag_hash t)
      && (not (is_filled t) || is_filled (invert_tag t))
      && (is_filled t || not (is_filled (invert_tag t))))
    ≡ true
unfolding every_below is_filled tag_hash invert_tag
invert_table = refl

-- What the tag of a fresh slot says.
pub fill_tag_lem :
    (hash : ℕ)
    → (is_filled (fill_tag hash) ≡ true)
      × (tag_hash (fill_tag hash) ≡ target_tag hash)
      × (fill_tag hash < 256)
unfolding fill_tag target_tag
fill_tag_lem hash =
    let row = every_below-lt 256 _ (hash_byte hash) fill_table (hash_byte-lt hash) in ground arith

-- Inverting a tag changes its fingerprint and keeps the fill bit.
pub invert_tag_lem :
    (tag : ℕ)
    → tag < 256
    → (invert_tag tag < 256)
      × (is_filled (invert_tag tag) ≡ is_filled tag)
      × ((tag_hash (invert_tag tag) == tag_hash tag) ≡ false)
invert_tag_lem tag h = let row = every_below-lt 256 _ tag invert_table h in ground arith

outer_table :
    every_below 256 (λ b.
      let fresh = bit_or tag_fill_mask (bit_and outer_tag_hash_mask b) in
      let marked =
        bit_or (bit_or tag_fill_mask outer_tag_fill_mask) (bit_and outer_tag_hash_mask b) in
      is_filled fresh
      && not (is_marked fresh)
      && is_filled marked
      && is_marked marked
      && (outer_fingerprint fresh == bit_and outer_tag_hash_mask b)
      && (outer_fingerprint marked == bit_and outer_tag_hash_mask b))
    ≡ true
unfolding every_below is_filled is_marked outer_fingerprint
outer_table = refl

-- The two tags that a slot of an outer join has: filled both, with the fingerprint of the hash, and
-- told apart by the mark.
pub outer_tag_lem :
    (hash : ℕ)
    → (is_filled (outer_fill_tag hash) ≡ true)
      × (is_marked (outer_fill_tag hash) ≡ false)
      × (is_filled (outer_marked_tag hash) ≡ true)
      × (is_marked (outer_marked_tag hash) ≡ true)
      × (outer_fingerprint (outer_fill_tag hash) ≡ outer_target hash)
      × (outer_fingerprint (outer_marked_tag hash) ≡ outer_target hash)
unfolding outer_fill_tag outer_marked_tag outer_target
outer_tag_lem hash =
    let row = every_below-lt 256 _ (hash_byte hash) outer_table (hash_byte-lt hash) in ground arith

unmatched_table :
    every_below 256 (λ t.
      let unmatched = not (not (is_filled t) || is_marked t) in
      let bits = leb 128 t && ltb (t % 128) 64 in
      (not unmatched || bits) && (not bits || unmatched))
    ≡ true
unfolding every_below is_filled is_marked
unmatched_table = refl

-- A filled tag without a mark is a byte of which the highest bit is set and the next one is not.
pub unmatched_tag_lem :
    (tag : ℕ)
    → tag < 256
    → not (not (is_filled tag) || is_marked tag) ≡ (leb 128 tag && ltb (tag % 128) 64)
unmatched_tag_lem tag h = let row = every_below-lt 256 _ tag unmatched_table h in ground arith

pub is_filled-zero : is_filled 0 ≡ false
unfolding is_filled
is_filled-zero = refl
