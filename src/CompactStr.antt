-- ===== src/CompactStr.antt =====
-- `CompactStr` of oxidart/src/compact_str.rs: the compressed part of a key, in eight bytes of its
-- own or in a heap block. A block is 4-aligned, so that the lowest bit of the first byte tells the
-- two apart: here they are two constructors.
pub mod Laws
use radixox.Common.{
  ℕ, suc, ◌+◌, ◌*◌, ◌/◌, ◌%◌, ◌^◌, leb, if◌then◌else◌, List, [], ◌∷◌, ◌++◌, length, get_or, set,
  take, drop, replicate,
}

abbrev pub inline_cap : ℕ
inline_cap = 7

-- A heap block begins with the length as a `u32`, and holds the bytes behind it.
pub data CompactStr : Type 0 where
  inline : List ℕ → CompactStr
  heap : ℕ → List ℕ → CompactStr

-- `buffer[i..i + bytes.len()].copy_from_slice(bytes)`
abbrev pub copy_at : ℕ → List ℕ → List ℕ → List ℕ
copy_at i bytes buffer = take i buffer ++ bytes ++ drop (i + length bytes) buffer

-- `(len << 1) | 1`, a byte
abbrev pub length_tag : ℕ → ℕ
length_tag len = len % 256 * 2 % 256 + 1

pub new : CompactStr
new = inline (1 ∷ 0 ∷ 0 ∷ 0 ∷ 0 ∷ 0 ∷ 0 ∷ 0 ∷ [])

unfoldable pub from_slice : List ℕ → CompactStr
from_slice bytes =
    if leb (length bytes) inline_cap
    then inline (copy_at 1 bytes (set (replicate 8 0) 0 (length_tag (length bytes))))
    else heap (length bytes % 2 ^ 32) bytes

-- The bytes of the string.
unfoldable pub deref : CompactStr → List ℕ
deref (inline bytes) = take (get_or bytes 0 0 / 2) (drop 1 bytes)
deref (heap len bytes) = take len bytes

-- `self ++ radix ++ suffix`, in one allocation
unfoldable pub append_and_replace : CompactStr → ℕ → List ℕ → CompactStr
unfolding deref
append_and_replace s radix suffix =
    let old = deref s in
    let new_len = length old + 1 + length suffix in
    if leb new_len inline_cap
    then inline (
        copy_at (2 + length old) suffix
          (set (copy_at 1 old (set (replicate 8 0) 0 (length_tag new_len))) (1 + length old) radix))
    else heap (new_len % 2 ^ 32) (old ++ radix ∷ suffix)
