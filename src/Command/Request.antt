-- ===== src/Command/Request.antt =====
-- The parser of a request: `parse_uint`, `expect_crlf` and `Cmd::from_slice` of
-- radixox-lib/src/cmd.rs. Arithmetic on `usize` wraps, as in a release build; a slice whose end lies
-- before its start panics.
pub mod Laws
use radixox.Common.{
  ℕ, zero, suc, ◌+◌, ◌-◌, ◌*◌, ◌%◌, ◌^◌, Bool, true, false, ◌&&◌, ltb, ◌==◌, if◌then◌else◌, List,
  [], ◌∷◌, Option, none, some, Run, ok, panic, ◌>>=◌, length, take, drop, is_digit,
}
use radixox.Command.{Bytes, Cmd}
use radixox.Command.Dispatch.{dispatch}

-- `pos`, and the bytes from there on.
pub record Cursor : Type 0 where
  pub at : ℕ
  pub rest : List ℕ

-- `?`, in code that may also panic
infixl 5 ◌>>?◌
abbrev pub ◌>>?◌ {ℓ κ} :
    {A : Type ℓ} {B : Type κ} → Run (Option A) → (A → Run (Option B)) → Run (Option B)
m >>? f = m >>= λ o. elim o [ none ↦ ok none | some a ↦ f a ]

-- The loop of `parse_uint`, which ends before a carriage return.
pub uint_loop : ℕ → ℕ → List ℕ → Option (ℕ × Cursor)
uint_loop n at [] = none
uint_loop n at (b ∷ rest) =
    let next = uint_loop ((n * 10 + (b - b'0')) % 2 ^ 64) (at + 1) rest in
    if b == 13
    then some (n, record { at = at; rest = b ∷ rest })
    else if is_digit b
    then next
    else none

unfoldable pub parse_uint : Cursor → Option (ℕ × Cursor)
unfolding uint_loop
parse_uint c = uint_loop 0 c.at c.rest

-- A carriage return and a line feed at the start of the bytes.
pub crlf_at : ℕ → List ℕ → Option Cursor
crlf_at at [] = none
crlf_at at (a ∷ []) = none
crlf_at at (a ∷ b ∷ rest) =
    if a == 13 && b == 10 then some (record { at = at + 2; rest = rest }) else none

unfoldable pub expect_crlf : Cursor → Option Cursor
unfolding crlf_at
expect_crlf c = crlf_at c.at c.rest

-- `d.get(pos) == Some(&b)`, and `pos += 1`
abbrev pub expect_byte : ℕ → Cursor → Option Cursor
expect_byte b c = elim c.rest [
  | [] ↦ none
  | a ∷ rest ↦ if a == b then some (record { at = c.at + 1; rest = rest }) else none
]

-- `&d[pos..pos + len]` and `pos += len`, in a request of `size` bytes
unfoldable pub slice : ℕ → Cursor → ℕ → Run (Option (Bytes × Cursor))
slice size c len =
    let end = (c.at + len) % 2 ^ 64 in
    if ltb size end
    then ok none
    else if ltb end c.at
    then panic
    else ok (some (take (end - c.at) c.rest, record { at = end; rest = drop (end - c.at) c.rest }))

-- One round of the loop over the arguments.
unfoldable pub bulk : ℕ → Cursor → Run (Option (Bytes × Cursor))
unfolding parse_uint expect_crlf slice
bulk size c = ok (expect_byte b'$' c) >>? λ c. ok (parse_uint c) >>? λ (len, c).
    ok (expect_crlf c) >>? λ c.
    slice size c len >>? λ (s, c). ok (expect_crlf c) >>? λ c. ok (some (s, c))

pub bulks : ℕ → ℕ → Cursor → Run (Option (List Bytes))
unfolding bulk
bulks zero size c = ok (some [])
bulks (suc n) size c = bulk size c >>? λ (s, c). bulks n size c >>? λ raw. ok (some (s ∷ raw))

module _ {F : Type 0} (arg_f64 : Bytes → Option F) where
  unfoldable pub from_slice : List ℕ → Run (Option (Cmd F))
  unfolding bulks parse_uint expect_crlf
  from_slice d = ok (expect_byte b'*' (record { at = 0; rest = d })) >>? λ c.
      ok (parse_uint c) >>? λ (n, c). ok (expect_crlf c) >>? λ c.
      if n == 0 then ok none else (bulks n (length d) c >>? λ raw. ok (dispatch arg_f64 raw))
