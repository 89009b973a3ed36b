-- ===== src/Ncmd/Frame.antt =====
-- What a buffer means: commands and their bytes on the wire, as doc/NETCMD.protocol describes them.
use smsg.Base.{ℕ, ◌+◌, ◌<◌, ◌≡◌, List, [], ◌∷◌, ◌++◌, length, length-append, arith}
use smsg.Ncmd.Words.{store_nl, store_ns}

pub record Command : Type 0 where
  pub op : ℕ
  pub args : List (List ℕ)

-- A doubleword with the length, then the data.
unfoldable pub encode_args : List (List ℕ) → List ℕ
encode_args [] = []
encode_args (a ∷ args) = store_nl (length a) ++ (a ++ encode_args args)

-- The identification word, the number of arguments, the arguments.
unfoldable pub encode : Command → List ℕ
encode c = store_ns c.op ++ (store_ns (length c.args) ++ encode_args c.args)

-- The command fits the fields of the format, and an `int` counts its bytes.
pub record IsSized (c : Command) : Type 0 where
  pub op_word : c.op < 65536
  pub args_word : length c.args < 65536
  pub size_int : length (encode c) < 2147483648

pub length-encode_args :
    (a : List ℕ) (args : List (List ℕ))
    → length (encode_args (a ∷ args)) ≡ 4 + length a + length (encode_args args)
unfolding encode_args
length-encode_args a args = omega (arith, length-append a (encode_args args))

pub length-encode : (c : Command) → length (encode c) ≡ 4 + length (encode_args c.args)
unfolding encode
length-encode c = omega arith
