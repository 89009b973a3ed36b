-- ===== src/Ncmd/Words.antt =====
-- ncmd.c: words and doublewords in network byte order. A pointer into a buffer is the list of the
-- bytes from there to the buffer's end. `unsigned long` has 64 bits and `int` has 32.
use smsg.Base.{
  ℕ, ◌+◌, ◌-◌, ◌*◌, ◌/◌, ◌%◌, ◌<◌, ◌≡◌, refl, List, [], ◌∷◌, ◌++◌, arith, ltb, suc, take,
  if◌then◌else◌,
}
use smsg.Base.Outcome.{Outcome, ok, fault}

-- The four bytes that `store_nl` writes.
abbrev pub store_nl : ℕ → List ℕ
store_nl val = (val / 16777216 % 256) ∷ (val / 65536 % 256) ∷ (val / 256 % 256) ∷ (val % 256) ∷ []

-- `(*p & 0xFF) << 24` is an `int`: from 128 on it is negative, and widening it to 64 bits fills
-- the upper half with ones.
abbrev pub high_byte : ℕ → ℕ
high_byte b =
    if ltb (b % 256) 128
    then b % 256 * 16777216
    else b % 256 * 16777216 + (18446744073709551616 - 4294967296)

unfoldable pub read_nl : List ℕ → Outcome ℕ
read_nl (a ∷ b ∷ c ∷ d ∷ _) =
    ok ((high_byte a + b % 256 * 65536 + c % 256 * 256 + d % 256) % 18446744073709551616)
read_nl _ = fault

-- The two bytes that `store_ns` writes.
abbrev pub store_ns : ℕ → List ℕ
store_ns val = (val / 256 % 256) ∷ (val % 256) ∷ []

unfoldable pub read_ns : List ℕ → Outcome ℕ
read_ns (a ∷ b ∷ _) = ok ((a % 256 * 256 + b % 256) % 65536)
read_ns _ = fault

-- The value that `read_nl` makes of the low 32 bits of `val`: from 2 ^ 31 on, the sign is extended.
abbrev pub extended : ℕ → ℕ
extended val =
    let low : ℕ = val % 4294967296 in
    if ltb low 2147483648 then low else low + (18446744073709551616 - 4294967296)

pub read_nl-store_nl :
    (val : ℕ) (rest : List ℕ) → read_nl (store_nl val ++ rest) ≡ ok (extended val)
unfolding read_nl
read_nl-store_nl val rest = ground arith

pub read_nl-store_nl_small :
    (val : ℕ) (rest : List ℕ) → val < 2147483648 → read_nl (store_nl val ++ rest) ≡ ok val
unfolding read_nl
read_nl-store_nl_small val rest h = ground arith

pub read_ns-store_ns : (val : ℕ) (rest : List ℕ) → read_ns (store_ns val ++ rest) ≡ ok (val % 65536)
unfolding read_ns
read_ns-store_ns val rest = ground arith

-- Four bytes are enough to read the length.
pub read_nl-take : (w : List ℕ) (j : ℕ) → read_nl (take (suc (suc (suc (suc j)))) w) ≡ read_nl w
unfolding read_nl
read_nl-take (a ∷ b ∷ c ∷ d ∷ w) j = refl
read_nl-take [] j = refl
read_nl-take (a ∷ []) j = refl
read_nl-take (a ∷ b ∷ []) j = refl
read_nl-take (a ∷ b ∷ c ∷ []) j = refl
