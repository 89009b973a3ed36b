-- ===== src/Calls/Encode.antt =====
-- What the calls of ncmd.c by a sender and a receiver amount to: the sender's buffer is the encoding
-- of its command, and the receiver's pointers hold the command's arguments.
use smsg.Base.{
  ℕ, ◌+◌, ◌≡◌, refl, sym, ap, ◌∙◌, List, [], ◌∷◌, ◌++◌, length, map, Option, none, some, Bool,
  get_elem?,
}
use smsg.Base.Outcome.{ok, ◌>>=◌}
use smsg.Base.Memory.{Memory, IsPlentiful, realloc_grows, overwrite-append}
use smsg.Ncmd.Words.{store_nl, store_ns}
use smsg.Ncmd.Frame.{Command, encode, encode_args, IsSized}
use smsg.Ncmd.Argument.{ncmd_getarg-encode, reply_of}
use smsg.Ncmd.Build.{ncmd_set_lem, ncmd_add_lem, add_all, build-encode, write_arg}
use smsg.Ncmd.{ncmd_add, terminator}
use smsg.Calls.{set_cmd, add_args, compose, fetch, fetched}

-- A null pointer is sent as an empty argument.
abbrev pub data_of : Option (List ℕ) → List ℕ
data_of none = []
data_of (some a) = a

-- The command that is sent.
abbrev pub command : ℕ → List (Option (List ℕ)) → Command
command op args = record { op = op; args = map data_of args }

ncmd_add-none :
    (m : Memory) (buf : List ℕ) → IsPlentiful m → ncmd_add m buf none ≡ ncmd_add m buf (some [])
unfolding ncmd_add
ncmd_add-none m buf p =
    let j = m.junk in
    rw
      (
        write_arg m buf [] p,
        realloc_grows m buf 4 p,
        overwrite-append buf (j ∷ j ∷ j ∷ j ∷ []) (store_nl 0) [] refl,
      )
      refl

add_args-add_all :
    (m : Memory) (n : ℕ) (op : ℕ) (body : List ℕ) (args : List (Option (List ℕ)))
    → IsPlentiful m
    → add_args m (store_ns op ++ (store_ns n ++ body)) args
      ≡ add_all m (store_ns op ++ (store_ns n ++ body)) (map data_of args)
unfolding add_args add_all
add_args-add_all m n op body [] p = refl
add_args-add_all m n op body (none ∷ args) p =
    rw (ncmd_add-none m (store_ns op ++ (store_ns n ++ body)) p, ncmd_add_lem m op n body [] p)
      (add_args-add_all m (n + 1) op (body ++ (store_nl 0 ++ [])) args p)
add_args-add_all m n op body (some a ∷ args) p =
    rw (ncmd_add_lem m op n body a p)
      (add_args-add_all m (n + 1) op (body ++ (store_nl (length a) ++ a)) args p)

pub compose-encode :
    (m : Memory) (old : List ℕ) (op : ℕ) (args : List (Option (List ℕ)))
    → IsPlentiful m
    → compose m old op args ≡ ok (encode (command op args))
unfolding compose set_cmd encode encode_args
compose-encode m old op args p = rw (ncmd_set_lem m old op p) (
    add_args-add_all m 0 op [] args p
    ∙ sym (ap (λ o. o >>= λ t. add_all m t (map data_of args)) (ncmd_set_lem m old op p))
    ∙ build-encode m old (command op args) p)

pub fetch-encode :
    (m : Memory) (c : Command) (rest : List ℕ) (k : ℕ) (addzero : Bool) (old : Option (List ℕ))
    (a : List ℕ)
    → IsPlentiful m
    → IsSized c
    → get_elem? c.args k ≡ some a
    → fetch m (encode c ++ rest) old k addzero ≡ ok (some (a ++ terminator addzero))
unfolding fetch reply_of fetched
fetch-encode m c rest k addzero old a p h found =
    rw
      (
        ncmd_getarg-encode m c rest k addzero h,
        found,
        p.all_granted (length a + length (terminator addzero)),
      )
      refl
