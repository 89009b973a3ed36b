-- ===== src/Ncmd/Complete.antt =====
-- ncmd_iscomplete() on whole commands and on their prefixes.
use smsg.Base.{
  ℕ, suc, ◌+◌, ◌-◌, ◌<◌, ◌≤◌, ◌≡◌, refl, sym, ap, ◌∙◌, List, [], ◌∷◌, ◌++◌, length, length-append,
  drop, take, drop-drop, drop-append, length_of_drop, append_assoc, arith, ltb, inl, inr,
  Bool-cases, true, false, drop-take, length-take_le, ltb→lt, le_of_ltb, lt→ltb, append-nil,
}
use smsg.Base.Outcome.{ok}
use native.Mathlib.Nat.{mod-eq_of_lt}
use smsg.Ncmd.Words.{read_nl, read_nl-store_nl_small, read_nl-take, read_ns-store_ns}
use smsg.Ncmd.Frame.{Command, encode_args, encode, IsSized, length-encode_args}
use smsg.Ncmd.{past, scan_args, ncmd_iscomplete}

pub past_fits : (len p : ℕ) → p ≤ len → p < 9223372036854775808 → past len p ≡ false
unfolding past
past_fits len p h small = ground arith

past_beyond : (len p : ℕ) → len < p → p < 9223372036854775808 → past len p ≡ true
unfolding past
past_beyond len p h small = ground arith

-- One round over an argument that is there.
scan_args_step :
    (buf : List ℕ) (k i n : ℕ)
    → read_nl (drop i buf) ≡ ok n
    → i + n + 4 ≤ length buf
    → i + n + 4 < 9223372036854775808
    → scan_args buf (suc k) i ≡ scan_args buf k (i + n + 4)
unfolding scan_args
scan_args_step buf k i n e fits small =
    rw (past_fits (length buf) (i + 4) (omega arith) (omega arith)) (
      rw e (
        rw (past_fits (length buf) (i + n + 4) fits small)
          (ap (scan_args buf k) (mod-eq_of_lt (omega arith)))))

-- Where the arguments begin, and what follows the first.
module _ (a : List ℕ) (args : List (List ℕ)) (buf rest : List ℕ) (i : ℕ)
    (e : drop i buf ≡ encode_args (a ∷ args) ++ rest) where
  pub read_length : length a < 2147483648 → read_nl (drop i buf) ≡ ok (length a)
  unfolding encode_args
  read_length h = rw e (read_nl-store_nl_small (length a) ((a ++ encode_args args) ++ rest) h)

  pub drop_data : drop (i + 4) buf ≡ a ++ (encode_args args ++ rest)
  unfolding encode_args
  drop_data = rw (drop-drop i 4 buf, e) (append_assoc a (encode_args args) rest)

  pub drop_next : drop (i + length a + 4) buf ≡ encode_args args ++ rest
  drop_next =
      let regroup : i + length a + 4 ≡ i + 4 + length a = omega arith in
      rw (regroup, drop-drop (i + 4) (length a) buf, drop_data)
        (drop-append (length a) a (encode_args args ++ rest) refl)

  pub length_rest : length buf ≡ i + 4 + length a + length (encode_args args ++ rest)
  unfolding encode_args
  length_rest = omega (
    arith,
    length_of_drop i buf (encode_args (a ∷ args) ++ rest) e (omega arith),
    length-append (a ++ encode_args args) rest,
    length-append a (encode_args args),
    length-append (encode_args args) rest,
  )

scan_args-encode_args :
    (args : List (List ℕ)) (buf rest : List ℕ) (i : ℕ)
    → drop i buf ≡ encode_args args ++ rest
    → i + length (encode_args args) < 2147483648
    → scan_args buf (length args) i ≡ ok (i + length (encode_args args))
scan_args-encode_args [] buf rest i e small = unfold scan_args encode_args in ap ok (omega arith)
scan_args-encode_args (a ∷ args) buf rest i e small =
    let size = length-encode_args a args in
    scan_args_step buf (length args) i (length a) (read_length a args buf rest i e (omega arith))
      (omega (arith, length_rest a args buf rest i e)) (omega arith)
    ∙ scan_args-encode_args args buf rest (i + length a + 4) (drop_next a args buf rest i e)
        (omega arith)
    ∙ ap ok (omega arith)

-- A command that fits the format and has arrived whole is found, whatever follows it, and its size
-- is returned.
pub ncmd_iscomplete-encode :
    (c : Command) (rest : List ℕ)
    → IsSized c
    → ncmd_iscomplete (encode c ++ rest) ≡ ok (length (encode c))
unfolding ncmd_iscomplete encode
ncmd_iscomplete-encode c rest h =
    rw (read_ns-store_ns (length c.args) (encode_args c.args ++ rest), mod-eq_of_lt h.args_word)
      (rw (scan_args-encode_args c.args (encode c ++ rest) rest 4 refl (omega (arith, h.size_int)))
        (ground (arith, h.size_int)))

-- The length field is read from a buffer that was cut behind it.
read_cut :
    (whole : List ℕ) (i k : ℕ)
    → i + 4 ≤ k
    → read_nl (drop i (take k whole)) ≡ read_nl (drop i whole)
read_cut whole i k h =
    let e : k - i ≡ suc (suc (suc (suc (k - i - 4)))) = omega arith in
    rw (drop-take i k whole, e) (read_nl-take (drop i whole) (k - i - 4))

module _ (whole : List ℕ) (k : ℕ) (held : k ≤ length whole) where
  -- A round that runs out of bytes, in the length field or in the data.
  scan_args_cut :
      (a : List ℕ) (args : List (List ℕ)) (i : ℕ)
      → drop i whole ≡ encode_args (a ∷ args)
      → i + length (encode_args (a ∷ args)) < 2147483648
      → k < i + length a + 4
      → scan_args (take k whole) (suc (length args)) i ≡ ok 0
  unfolding scan_args
  scan_args_cut a args i e small cut =
      let size = length-encode_args a args in
      elim (Bool-cases (ltb k (i + 4))) [
        | inl short ↦ rw (
            past_beyond (length (take k whole)) (i + 4)
              (omega (arith, length-take_le k whole held, ltb→lt k (i + 4) short)) (omega arith))
        | inr long ↦ rw (
          past_fits (length (take k whole)) (i + 4)
              (omega (arith, length-take_le k whole held, le_of_ltb k (i + 4) long)) (omega arith),
          read_cut whole i k (le_of_ltb k (i + 4) long),
          read_length a args whole [] i (e ∙ sym (append-nil _)) (omega arith),
          past_beyond (length (take k whole)) (i + length a + 4)
              (omega (arith, length-take_le k whole held)) (omega arith),
        )
      ]

  scan_args-take :
      (args : List (List ℕ)) (i : ℕ)
      → drop i whole ≡ encode_args args
      → i + length (encode_args args) < 2147483648
      → i ≤ k
      → k < i + length (encode_args args)
      → scan_args (take k whole) (length args) i ≡ ok 0
  scan_args-take [] i e small reached cut = absurd (unfold encode_args in omega arith)
  scan_args-take (a ∷ args) i e small reached cut =
      let size = length-encode_args a args in
      elim (Bool-cases (ltb k (i + length a + 4))) [
        | inl short ↦ scan_args_cut a args i e small (ltb→lt _ _ short)
        | inr long ↦
            scan_args_step (take k whole) (length args) i (length a)
              (read_cut whole i k (omega (arith, le_of_ltb _ _ long))
                ∙ read_length a args whole [] i (e ∙ sym (append-nil _)) (omega arith))
              (omega (arith, length-take_le k whole held, le_of_ltb _ _ long)) (omega arith)
            ∙ scan_args-take args (i + length a + 4)
                (drop_next a args whole [] i (e ∙ sym (append-nil _)) ∙ append-nil _) (omega arith)
                (le_of_ltb _ _ long) (omega arith)
      ]

iscomplete_long :
    (c : Command) (j : ℕ)
    → IsSized c
    → 4 + j < length (encode c)
    → ncmd_iscomplete (take (suc (suc (suc (suc j)))) (encode c)) ≡ ok 0
unfolding ncmd_iscomplete encode
iscomplete_long c j h cut =
    rw
      (
        read_ns-store_ns (length c.args) (take j (encode_args c.args)),
        mod-eq_of_lt h.args_word,
        scan_args-take (encode c) (suc (suc (suc (suc j)))) (omega arith) c.args 4 refl
            (omega (arith, h.size_int)) (omega arith) (omega arith),
      )
      (ground arith)

-- Of a command that fits the format and has arrived in part only, however much of it,
-- ncmd_iscomplete() returns 0.
pub ncmd_iscomplete-take :
    (c : Command) (k : ℕ)
    → IsSized c
    → k < length (encode c)
    → ncmd_iscomplete (take k (encode c)) ≡ ok 0
unfolding ncmd_iscomplete
ncmd_iscomplete-take c k h cut = elim (Bool-cases (ltb k 4)) [
  | inl short ↦ rw (
      lt→ltb (length (take k (encode c))) 4
        (omega (arith, length-take_le k (encode c) (omega arith), ltb→lt k 4 short)))
  | inr long ↦
      let e : k ≡ suc (suc (suc (suc (k - 4)))) = omega (arith, le_of_ltb k 4 long) in
      ap (λ n. ncmd_iscomplete (take n (encode c))) e ∙ iscomplete_long c (k - 4) h (omega arith)
]
