-- ===== src/Ncmd/Argument.antt =====
-- ncmd_get(), ncmd_getnumargs(), ncmd_getarg() and ncmd_remove() on a buffer that begins with a
-- whole command.
use smsg.Base.{
  lt→ltb, le→leb, get_elem?-eq-none, get_elem?-eq-some, ℕ, zero, suc, ◌+◌, ◌-◌, ◌<◌, ◌≤◌, ◌≡◌, refl,
  ap, ◌∙◌, List, [], ◌∷◌, ◌++◌, length, length-append, drop, take, drop-append, take-append,
  get_elem?, Option, none, some, Bool, true, false, arith, if◌then◌else◌, ltb-le,
}
use smsg.Base.Outcome.{Outcome, ok, failed}
use smsg.Base.Memory.{Memory, IsPlentiful}
use native.Mathlib.Nat.{mod-eq_of_lt}
use smsg.Ncmd.Words.{read_nl, read_ns-store_ns}
use smsg.Ncmd.Frame.{Command, encode_args, encode, IsSized, length-encode_args, length-encode}
use smsg.Ncmd.Complete.{read_length, drop_data, drop_next, length_rest, ncmd_iscomplete-encode}
use smsg.Ncmd.{skip_args, ncmd_get, ncmd_getnumargs, ncmd_getarg, ncmd_remove, terminator}

pub ncmd_get-encode :
    (c : Command) (rest : List ℕ) → IsSized c → ncmd_get (encode c ++ rest) ≡ ok c.op
unfolding ncmd_get encode
ncmd_get-encode c rest h = read_ns-store_ns c.op _ ∙ ap ok (mod-eq_of_lt h.op_word)

pub ncmd_getnumargs-encode :
    (c : Command) (rest : List ℕ)
    → IsSized c
    → ncmd_getnumargs (encode c ++ rest) ≡ ok (length c.args)
unfolding ncmd_getnumargs encode
ncmd_getnumargs-encode c rest h =
    read_ns-store_ns (length c.args) _ ∙ ap ok (mod-eq_of_lt h.args_word)

skip_args_step :
    (buf : List ℕ) (k i n : ℕ)
    → read_nl (drop i buf) ≡ ok n
    → i + n + 4 < 9223372036854775808
    → skip_args buf (suc k) i ≡ skip_args buf k (i + n + 4)
unfolding skip_args
skip_args_step buf k i n e small = rw e (ap (skip_args buf k) (mod-eq_of_lt (omega arith)))

-- Where the k-th argument stands.
record Place (buf a : List ℕ) (i : ℕ) : Type 0 where
  small : length a < 2147483648
  fits : i + 4 + length a ≤ length buf
  length_read : read_nl (drop i buf) ≡ ok (length a)
  data_read : take (length a) (drop (i + 4) buf) ≡ a

skip_args-encode_args :
    (args : List (List ℕ)) (k : ℕ) (a buf rest : List ℕ) (i : ℕ)
    → get_elem? args k ≡ some a
    → drop i buf ≡ encode_args args ++ rest
    → i + length (encode_args args) < 2147483648
    → (j : ℕ) × (skip_args buf k i ≡ ok j) × Place buf a j
skip_args-encode_args [] k a buf rest i found e small = cc
skip_args-encode_args (b ∷ args) zero a buf rest i found e small =
    let same : a ≡ b = cc in
    let sizes = length-encode_args b args in
    (
      i,
      unfold skip_args in refl,
      record {
        small = rw same (omega arith);
        fits = rw same (omega (arith, length_rest b args buf rest i e));
        length_read = rw same (read_length b args buf rest i e (omega arith));
        data_read =
            rw (same, drop_data b args buf rest i e)
              (take-append (length b) b (encode_args args ++ rest) refl);
      },
    )
skip_args-encode_args (b ∷ args) (suc k) a buf rest i found e small =
    let sizes = length-encode_args b args in
    let (j, skipped, place) =
      skip_args-encode_args args k a buf rest (i + length b + 4) found
        (drop_next b args buf rest i e) (omega arith) in
    (
      j,
      skip_args_step buf k i (length b) (read_length b args buf rest i e (omega arith))
            (omega arith)
          ∙ skipped,
      place,
    )

-- What a request comes to, by the argument if the command has it.
unfoldable pub reply_of : Memory → Bool → Option (List ℕ) → Outcome (List ℕ)
reply_of m addzero none = failed
reply_of m addzero (some a) =
    if m.grants (length a + length (terminator addzero))
    then ok (a ++ terminator addzero)
    else failed

length-terminator : (addzero : Bool) → length (terminator addzero) ≤ 1
length-terminator true = omega arith
length-terminator false = omega arith

getarg_at :
    (m : Memory) (c : Command) (rest : List ℕ) (k : ℕ) (addzero : Bool) (a : List ℕ) (j : ℕ)
    → IsSized c
    → k < length c.args
    → length a < 2147483648
    → skip_args (encode c ++ rest) k 4 ≡ ok j
    → Place (encode c ++ rest) a j
    → ncmd_getarg m (encode c ++ rest) k addzero ≡ reply_of m addzero (some a)
unfolding ncmd_getarg ncmd_getnumargs reply_of
getarg_at m c rest k addzero a j h inside small skipped place =
    let no_wrap : length a + length (terminator addzero) < 18446744073709551616 =
      omega (arith, length-terminator addzero) in
    rw
      (
        ncmd_getnumargs-encode c rest h,
        lt→ltb k (length c.args) inside,
        skipped,
        place.length_read,
        mod-eq_of_lt no_wrap,
        place.data_read,
        le→leb (j + 4 + length a) (length (encode c ++ rest)) place.fits,
      )
      (ground arith)

reply_cases :
    (m : Memory) (c : Command) (rest : List ℕ) (k : ℕ) (addzero : Bool) (r : Option (List ℕ))
    → IsSized c
    → get_elem? c.args k ≡ r
    → ncmd_getarg m (encode c ++ rest) k addzero ≡ reply_of m addzero r
reply_cases m c rest k addzero none h found =
    unfold ncmd_getarg ncmd_getnumargs reply_of in
    rw
      (ncmd_getnumargs-encode c rest h, ltb-le k (length c.args) (get_elem?-eq-none c.args k found))
reply_cases m c rest k addzero (some a) h found =
    let (j, skipped, place) =
      skip_args-encode_args c.args k a (encode c ++ rest) rest 4 found (unfold encode in refl)
        (omega (arith, h.size_int, length-encode c)) in
    getarg_at m c rest k addzero a j h (get_elem?-eq-some c.args k a found) place.small skipped
      place

-- On a buffer that begins with a command that fits the format, ncmd_getarg() returns the argument
-- asked for, with the NUL if that was asked for, and -1 where the command has no such argument or
-- the memory is refused; it does not read outside the buffer.
pub ncmd_getarg-encode :
    (m : Memory) (c : Command) (rest : List ℕ) (k : ℕ) (addzero : Bool)
    → IsSized c
    → ncmd_getarg m (encode c ++ rest) k addzero ≡ reply_of m addzero (get_elem? c.args k)
ncmd_getarg-encode m c rest k addzero h = reply_cases m c rest k addzero (get_elem? c.args k) h refl

-- Removing the first command leaves the bytes that follow it.
pub ncmd_remove-encode :
    (m : Memory) (c : Command) (rest : List ℕ)
    → IsSized c
    → IsPlentiful m
    → ncmd_remove m (encode c ++ rest) ≡ ok (rest, true)
unfolding ncmd_remove
ncmd_remove-encode m c rest h p =
    rw (ncmd_iscomplete-encode c rest h, drop-append (length (encode c)) (encode c) rest refl)
      (ground (
        arith,
        length-encode c,
        length-append (encode c) rest,
        p.all_granted (length (encode c ++ rest) - length (encode c)),
      ))
