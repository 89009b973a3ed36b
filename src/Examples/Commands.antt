-- ===== src/Examples/Commands.antt =====
-- ncmd.c on a small command.
use smsg.Base.{◌+◌, ◌<◌, get_elem?, ℕ, ◌≡◌, List, [], ◌∷◌, ◌++◌, length, take, Bool, true, arith}
use smsg.Base.Outcome.{ok, fault, ◌>>=◌}
use smsg.Ncmd.{ncmd_set, ncmd_iscomplete, ncmd_get, ncmd_getnumargs, ncmd_getarg, ncmd_remove}
use smsg.Ncmd.Frame.{encode, encode_args, IsSized}
use smsg.Ncmd.Complete.{ncmd_iscomplete-take}
use smsg.Ncmd.Argument.{ncmd_getarg-encode, reply_of}
use smsg.Ncmd.Build.{build-encode, build_read, add_all}
use smsg.Ncmd.Overlong.{ncmd_iscomplete_overlong, announced}
use smsg.Examples.{memory, memory-IsPlentiful, unban}

unban-IsSized : IsSized unban
unfolding encode encode_args
unban-IsSized = record { op_word = omega arith; args_word = omega arith; size_int = omega arith }

-- The bytes that a sender makes of the command, and the next command's first two.
abbrev two_more : List ℕ
two_more = 0 ∷ 30 ∷ []

built : (ncmd_set memory two_more unban.op >>= λ t. add_all memory t unban.args) ≡ ok (encode unban)
built = build-encode memory two_more unban memory-IsPlentiful

build_read_example :
    (ncmd_iscomplete (encode unban ++ two_more) ≡ ok (length (encode unban)))
    × (ncmd_get (encode unban ++ two_more) ≡ ok unban.op)
    × (ncmd_getnumargs (encode unban ++ two_more) ≡ ok (length unban.args))
    × ((k : ℕ) (addzero : Bool)
        → ncmd_getarg memory (encode unban ++ two_more) k addzero
          ≡ reply_of memory addzero (get_elem? unban.args k))
    × (ncmd_remove memory (encode unban ++ two_more) ≡ ok (two_more, true))
build_read_example =
    build_read memory two_more two_more (encode unban) unban memory-IsPlentiful unban-IsSized built

seven_fewer : 7 < length (encode unban)
unfolding encode encode_args
seven_fewer = omega arith

ncmd_iscomplete-take_example : ncmd_iscomplete (take 7 (encode unban)) ≡ ok 0
ncmd_iscomplete-take_example = ncmd_iscomplete-take unban 7 unban-IsSized seven_fewer

ncmd_getarg-encode_example :
    ncmd_getarg memory (encode unban ++ two_more) 0 true
    ≡ reply_of memory true (get_elem? unban.args 0)
ncmd_getarg-encode_example = ncmd_getarg-encode memory unban two_more 0 true unban-IsSized

ncmd_iscomplete_overlong_example :
    (ncmd_iscomplete (announced 1 4000000000 two_more) ≡ ok (4000000000 + 8))
    × (ncmd_remove memory (announced 1 4000000000 two_more) ≡ fault)
ncmd_iscomplete_overlong_example =
    ncmd_iscomplete_overlong memory 1 4000000000 two_more (omega arith) (omega arith) (omega arith)
