-- ===== src/Ncmd.antt =====
-- ncmd.c: net commands. A buffer and its length are the list of the buffer's bytes; an offset into
-- it is counted modulo 2 ^ 64, as the pointer is.
pub mod Words
pub mod Opcode
pub mod Names
pub mod Frame
pub mod Complete
pub mod Argument
pub mod Build
pub mod Overlong
use smsg.Base.{
  ℕ, zero, suc, ◌+◌, ◌-◌, ◌*◌, ◌/◌, ◌%◌, ◌^◌, ◌<◌, ◌≡◌, refl, List, [], ◌∷◌, ◌++◌, arith, ltb, leb,
  ◌==◌, if◌then◌else◌, Option, none, some, Bool, true, false, ◌&&◌, ◌||◌, length, take, drop,
}
use smsg.Base.Outcome.{Outcome, ok, failed, fault, ◌>>=◌, ◌>>◌, guard_failed, guard_fault}
use smsg.Base.Memory.{Memory, realloc, overwrite}
use Words.{store_nl, read_nl, store_ns, read_ns}

-- `buf + len < p`. An offset from 2 ^ 63 on stands for an address before the buffer.
unfoldable pub past : ℕ → ℕ → Bool
past len p =
    ltb len (p % 18446744073709551616) && ltb (p % 18446744073709551616) 9223372036854775808

-- The `while(argsleft > 0)` loop, at offset `i`.
unfoldable pub scan_args : List ℕ → ℕ → ℕ → Outcome ℕ
scan_args buf zero i = ok i
scan_args buf (suc argsleft) i =
    if past (length buf) (i + 4)
    then ok 0
    else (read_nl (drop i buf) >>= λ n.
        if past (length buf) (i + n + 4)
        then ok 0
        else scan_args buf argsleft ((i + n + 4) % 18446744073709551616))

-- The result is an `int`: its 32 bits.
unfoldable pub ncmd_iscomplete : List ℕ → Outcome ℕ
ncmd_iscomplete buf =
    if ltb (length buf) 4
    then ok 0
    else (read_ns (drop 2 buf) >>= λ argsleft.
        scan_args buf argsleft 4 >>= λ size. ok (size % 4294967296))

unfoldable pub ncmd_get : List ℕ → Outcome ℕ
ncmd_get buf = read_ns buf

unfoldable pub ncmd_getnumargs : List ℕ → Outcome ℕ
ncmd_getnumargs buf = read_ns (drop 2 buf)

-- `while(currarg < argnum)`, with so many arguments still to pass.
unfoldable pub skip_args : List ℕ → ℕ → ℕ → Outcome ℕ
skip_args buf zero i = ok i
skip_args buf (suc left) i =
    read_nl (drop i buf) >>= λ n. skip_args buf left ((i + n + 4) % 18446744073709551616)

abbrev pub terminator : Bool → List ℕ
terminator true = 0 ∷ []
terminator false = []

-- The bytes that `*ap` holds afterwards; on failure `*ap` stays as it was.
unfoldable pub ncmd_getarg : Memory → List ℕ → ℕ → Bool → Outcome (List ℕ)
ncmd_getarg m buf argnum addzero = do
  numargs ← read_ns (drop 2 buf)
  guard_failed (ltb argnum numargs)
  i ← skip_args buf argnum 4
  n ← read_nl (drop i buf)
  guard_failed (m.grants ((n + length (terminator addzero)) % 18446744073709551616))
  guard_fault (leb (i + 4 + n) (length buf))
  ok (take n (drop (i + 4) buf) ++ terminator addzero)

-- `*buf` and `*len` afterwards, and whether 0 is returned. A size from 2 ^ 31 on is a negative
-- `int`, and memmove() then reads before the buffer.
unfoldable pub ncmd_remove : Memory → List ℕ → Outcome (List ℕ × Bool)
ncmd_remove m buf = ncmd_iscomplete buf >>= λ cl.
    if cl == 0
    then ok (buf, false)
    else if ltb (length buf) cl
    then fault
    else if length buf == cl || m.grants (length buf - cl)
    then ok (drop cl buf, true)
    else ok (drop cl buf ++ drop (length buf - cl) buf, false)

unfoldable pub ncmd_set : Memory → List ℕ → ℕ → Outcome (List ℕ)
ncmd_set m buf ncmd = do
  t ← realloc m buf 4
  t ← overwrite t 0 (store_ns ncmd)
  overwrite t 2 (store_ns 0)

-- `store_ns(*buf+2, read_ns(*buf+2)+1)`
unfoldable pub count_arg : List ℕ → Outcome (List ℕ)
count_arg buf = do n ← read_ns (drop 2 buf); overwrite buf 2 (store_ns (n + 1))

-- The argument is `none` for a null pointer.
unfoldable pub ncmd_add : Memory → List ℕ → Option (List ℕ) → Outcome (List ℕ)
ncmd_add m buf none = do
  t ← realloc m buf (length buf + 4)
  t ← overwrite t (length buf) (store_nl 0)
  count_arg t
ncmd_add m buf (some s) = do
  t ← realloc m buf (length buf + 4 + length s)
  t ← overwrite t (length buf) (store_nl (length s))
  t ← overwrite t (length buf + 4) s
  count_arg t
