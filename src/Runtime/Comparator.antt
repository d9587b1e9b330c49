-- ===== src/Runtime/Comparator.antt =====
-- runtime/NewHashTables.h, the key comparators. The hash tables of runtime/HashTables.cpp read and
-- write keys the same way, with `memcmp`, `strcmp`, `memcpy` and XXH3 called in place.
use inkfuse.Base.{
  ℕ, ◌+◌, ◌*◌, ◌^◌, ◌≤◌, ◌≡◌, refl, Bool, true, false, not, ◌&&◌, ◌||◌, if◌then◌else◌, List, [],
  ◌∷◌, ◌++◌, arith, ◌==◌, length, take, drop, take-append_take,
}
use inkfuse.Runtime.Run.{Run, ok, throws}

-- The bytes behind a `char*` as far as the table may read them.
abbrev pub Row : Type 0
Row = List ℕ

-- `memcmp` of two strings of bytes, and `strcmp`, as a test for equality
unfoldable pub same_bytes : Row → Row → Bool
same_bytes [] [] = true
same_bytes (x ∷ xs) (y ∷ ys) = x == y && same_bytes xs ys
same_bytes _ _ = false

-- `memcpy(dst, src, n)`
unfoldable pub copy_bytes : ℕ → Row → Row → Row
copy_bytes n src dst = take n src ++ drop n dst

-- How a table reads the keys in its slots. The key that a packed row stands for is a string of
-- bytes; `key_size` bytes of the packed row determine it.
pub record Comparator : Type 0 where
  pub key_of : Row → Row
  pub key_size : ℕ
  pub key_of-copy :
      (key slot : Row) → key_size ≤ length key → key_of (copy_bytes key_size key slot) ≡ key_of key

-- `SimpleKeyComparator`: the key is the row's first bytes
unfoldable pub simple_key_of : ℕ → Row → Row
simple_key_of key_size row = take key_size row

pub simple_key_of-copy :
    (n : ℕ) (key slot : Row)
    → n ≤ length key
    → simple_key_of n (copy_bytes n key slot) ≡ simple_key_of n key
unfolding simple_key_of copy_bytes
simple_key_of-copy n key slot h = take-append_take n key (drop n slot) h

unfoldable pub simple_key : ℕ → Comparator
unfolding simple_key_of
simple_key n = record { key_of = simple_key_of n; key_size = n; key_of-copy = simple_key_of-copy n }

-- `ComplexKeyComparator`: the first eight bytes are a pointer to a string, least byte first. The
-- strings that pointers lead to are the parameter `strings`.
unfoldable pub pointer : Row → ℕ
pointer [] = 0
pointer (b ∷ bs) = b + 2 ^ 8 * pointer bs

unfoldable pub complex_key_of : (ℕ → Row) → Row → Row
complex_key_of strings row = strings (pointer (take 8 row))

pub complex_key_of-copy :
    (strings : ℕ → Row) (key slot : Row)
    → 8 ≤ length key
    → complex_key_of strings (copy_bytes 8 key slot) ≡ complex_key_of strings key
unfolding complex_key_of copy_bytes
complex_key_of-copy strings key slot h = rw (take-append_take 8 key (drop 8 slot) h)

-- the constructor throws unless the key is a single string
unfoldable pub complex_key : (ℕ → Row) → ℕ → ℕ → Run Comparator
complex_key strings complex_key_slots simple_key_size =
    if not (simple_key_size == 0) || not (complex_key_slots == 1)
    then throws
    else ok (record {
      key_of = complex_key_of strings;
      key_size = 8;
      key_of-copy = complex_key_of-copy strings;
    })

unfoldable pub eq : Comparator → Row → Row → Bool
eq c k1 k2 = same_bytes (c.key_of k1) (c.key_of k2)

-- `XXH3_64bits` is not code of the repository: it is a parameter, of which nothing is assumed.
unfoldable pub hash : (Row → ℕ) → Comparator → Row → ℕ
hash xxh3 c k = xxh3 (c.key_of k)

pub same_bytes_refl : (xs : Row) → same_bytes xs xs ≡ true
unfolding same_bytes
same_bytes_refl [] = refl
same_bytes_refl (x ∷ xs) = ground (arith, same_bytes_refl xs)

pub eq_of_same_bytes : (xs ys : Row) → same_bytes xs ys ≡ true → xs ≡ ys
unfolding same_bytes
eq_of_same_bytes [] [] h = refl
eq_of_same_bytes (x ∷ xs) (y ∷ ys) h = ground (arith, eq_of_same_bytes xs ys)
eq_of_same_bytes [] (y ∷ ys) h = ground arith
eq_of_same_bytes (x ∷ xs) [] h = ground arith

-- The test decides the equality of keys.
pub eq_of_key : (c : Comparator) (a b : Row) → c.key_of a ≡ c.key_of b → eq c a b ≡ true
unfolding eq
eq_of_key c a b e = rw e (same_bytes_refl (c.key_of b))

pub key_of_eq : (c : Comparator) (a b : Row) → eq c a b ≡ true → c.key_of a ≡ c.key_of b
unfolding eq
key_of_eq c a b h = eq_of_same_bytes (c.key_of a) (c.key_of b) h
