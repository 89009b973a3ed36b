-- ===== src/Ncmd/Build.antt =====
-- ncmd_set() and ncmd_add(), as the callers assemble a command by them.
use smsg.Base.{
  ℕ, suc, ◌+◌, ◌-◌, ◌≡◌, refl, sym, ap, ◌∙◌, List, [], ◌∷◌, ◌++◌, length, length-append, replicate,
  length-replicate, append_assoc, append-nil, some, Bool, true, get_elem?, arith,
}
use native.Mathlib.Nat.{zero-add}
use smsg.Base.Outcome.{Outcome, ok, ◌>>=◌}
use smsg.Base.Memory.{Memory, IsPlentiful, realloc, overwrite, realloc_grows, overwrite-append}
use smsg.Ncmd.Words.{store_nl, store_ns, read_ns}
use smsg.Ncmd.Frame.{Command, encode_args, encode, IsSized}
use smsg.Ncmd.Complete.{ncmd_iscomplete-encode}
use smsg.Ncmd.Argument.{
  ncmd_get-encode, ncmd_getnumargs-encode, ncmd_getarg-encode, ncmd_remove-encode, reply_of,
}
use smsg.Ncmd.{
  ncmd_set, ncmd_add, count_arg, ncmd_iscomplete, ncmd_get, ncmd_getnumargs, ncmd_getarg,
  ncmd_remove,
}

-- Four granted bytes are overwritten one and all, whatever the buffer held.
pub ncmd_set_lem :
    (m : Memory) (buf : List ℕ) (op : ℕ)
    → IsPlentiful m
    → ncmd_set m buf op ≡ ok (encode (record { op = op; args = [] }))
unfolding ncmd_set realloc overwrite encode encode_args
ncmd_set_lem m [] op p = rw (p.all_granted 4)
ncmd_set_lem m (a ∷ []) op p = rw (p.all_granted 4)
ncmd_set_lem m (a ∷ b ∷ []) op p = rw (p.all_granted 4)
ncmd_set_lem m (a ∷ b ∷ c ∷ []) op p = rw (p.all_granted 4)
ncmd_set_lem m (a ∷ b ∷ c ∷ d ∷ r) op p =
    let all_held : 4 - suc (suc (suc (suc (length r)))) ≡ 0 = omega arith in
    rw (p.all_granted 4, all_held)

count_arg_lem :
    (op n : ℕ) (body : List ℕ)
    → count_arg (store_ns op ++ (store_ns n ++ body))
      ≡ ok (store_ns op ++ (store_ns (n + 1) ++ body))
unfolding count_arg overwrite read_ns
count_arg_lem op n body = ground arith

write_data :
    (buf size s : List ℕ) (j : ℕ)
    → length size ≡ 4
    → overwrite (buf ++ (size ++ replicate (length s) j)) (length buf + 4) s
      ≡ ok (buf ++ (size ++ s))
write_data buf size s j four =
    let behind : length (buf ++ size) ≡ length buf + 4 = omega (arith, length-append buf size) in
    let fresh = replicate (length s) j in
    ap (λ t. overwrite t (length buf + 4) s)
      (sym (append_assoc buf size fresh) ∙ ap (◌++◌ (buf ++ size)) (sym (append-nil fresh)))
    ∙ ap (λ n. overwrite ((buf ++ size) ++ (fresh ++ [])) n s) (sym behind)
    ∙ overwrite-append (buf ++ size) fresh s [] (length-replicate (length s) j)
    ∙ ap ok (append_assoc buf size (s ++ []) ∙ ap (λ t. buf ++ (size ++ t)) (append-nil s))

pub write_arg :
    (m : Memory) (buf s : List ℕ)
    → IsPlentiful m
    → ncmd_add m buf (some s) ≡ count_arg (buf ++ (store_nl (length s) ++ s))
unfolding ncmd_add
write_arg m buf s p =
    let size : length buf + 4 + length s ≡ length buf + suc (suc (suc (suc (length s)))) =
      omega arith in
    let j = m.junk in
    rw
      (
        size,
        realloc_grows m buf (suc (suc (suc (suc (length s))))) p,
        overwrite-append buf (j ∷ j ∷ j ∷ j ∷ []) (store_nl (length s)) (replicate (length s) j)
            refl,
      )
      (ap (λ t. t >>= count_arg) (write_data buf (store_nl (length s)) s j refl))

pub ncmd_add_lem :
    (m : Memory) (op n : ℕ) (body s : List ℕ)
    → IsPlentiful m
    → ncmd_add m (store_ns op ++ (store_ns n ++ body)) (some s)
      ≡ ok (store_ns op ++ (store_ns (n + 1) ++ (body ++ (store_nl (length s) ++ s))))
ncmd_add_lem m op n body s p =
    write_arg m (store_ns op ++ (store_ns n ++ body)) s p
    ∙ count_arg_lem op n (body ++ (store_nl (length s) ++ s))

-- The calls of ncmd_add() by which a caller appends its arguments.
unfoldable pub add_all : Memory → List ℕ → List (List ℕ) → Outcome (List ℕ)
add_all m buf [] = ok buf
add_all m buf (a ∷ args) = ncmd_add m buf (some a) >>= λ t. add_all m t args

regroup :
    (op n : ℕ) (body a : List ℕ) (args : List (List ℕ))
    → store_ns op
        ++ (store_ns (n + 1 + length args)
            ++ ((body ++ (store_nl (length a) ++ a)) ++ encode_args args))
      ≡ store_ns op ++ (store_ns (n + suc (length args)) ++ (body ++ encode_args (a ∷ args)))
unfolding encode_args
regroup op n body a args =
    let count : n + 1 + length args ≡ n + suc (length args) = omega arith in
    rw (count, append_assoc body (store_nl (length a) ++ a) (encode_args args))

add_all-encode_args :
    (m : Memory) (op n : ℕ) (body : List ℕ) (args : List (List ℕ))
    → IsPlentiful m
    → add_all m (store_ns op ++ (store_ns n ++ body)) args
      ≡ ok (store_ns op ++ (store_ns (n + length args) ++ (body ++ encode_args args)))
unfolding add_all encode_args
add_all-encode_args m op n body [] p =
    let same : n + 0 ≡ n = omega arith in rw (same, append-nil body)
add_all-encode_args m op n body (a ∷ args) p = rw (ncmd_add_lem m op n body a p) (
    add_all-encode_args m op (n + 1) (body ++ (store_nl (length a) ++ a)) args p
    ∙ ap ok (regroup op n body a args))

-- With memory plentiful, what a sender assembles by ncmd_set() and ncmd_add() in any old buffer is
-- the encoding of its command.
pub build-encode :
    (m : Memory) (old : List ℕ) (c : Command)
    → IsPlentiful m
    → (ncmd_set m old c.op >>= λ t. add_all m t c.args) ≡ ok (encode c)
build-encode m old c p = rw (ncmd_set_lem m old c.op p) (
    unfold encode encode_args in
    add_all-encode_args m c.op 0 [] c.args p
    ∙ ap (λ n. ok (store_ns c.op ++ (store_ns n ++ encode_args c.args))) (zero-add (length c.args)))

-- With memory plentiful, take the buffer that a sender builds by ncmd_set() and ncmd_add() from a
-- command that fits the format. At the head of a receiver's buffer it is complete, with its length
-- for the size; code, number of arguments and each argument are read back, -1 for an argument that
-- is not there; and removing it leaves just the bytes behind it.
pub build_read :
    (m : Memory) (old rest buf : List ℕ) (c : Command)
    → IsPlentiful m
    → IsSized c
    → (ncmd_set m old c.op >>= λ t. add_all m t c.args) ≡ ok buf
    → (ncmd_iscomplete (buf ++ rest) ≡ ok (length buf))
      × (ncmd_get (buf ++ rest) ≡ ok c.op)
      × (ncmd_getnumargs (buf ++ rest) ≡ ok (length c.args))
      × ((k : ℕ) (addzero : Bool)
          → ncmd_getarg m (buf ++ rest) k addzero ≡ reply_of m addzero (get_elem? c.args k))
      × (ncmd_remove m (buf ++ rest) ≡ ok (rest, true))
build_read m old rest buf c p h built =
    let same : buf ≡ encode c = cc (build-encode m old c p) in
    rw same (
      ncmd_iscomplete-encode c rest h,
      ncmd_get-encode c rest h,
      ncmd_getnumargs-encode c rest h,
      (λ k addzero. ncmd_getarg-encode m c rest k addzero h),
      ncmd_remove-encode m c rest h p,
    )
