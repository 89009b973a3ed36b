-- ===== src/Ncmd/Overlong.antt =====
-- ncmd_iscomplete() on a length field whose top bit is set.
use smsg.Base.{ℕ, ◌+◌, ◌-◌, ◌%◌, ◌<◌, ◌≤◌, ◌≡◌, List, ◌++◌, length, arith, false}
use smsg.Base.Outcome.{ok, fault}
use smsg.Base.Memory.{Memory}
use smsg.Ncmd.Words.{store_nl, store_ns, read_ns, read_nl-store_nl, extended}
use smsg.Ncmd.Complete.{past_fits}
use smsg.Ncmd.{past, scan_args, ncmd_iscomplete, ncmd_remove}

-- A command with one argument that is announced to be `v` bytes long.
abbrev pub announced : ℕ → ℕ → List ℕ → List ℕ
announced op v rest = store_ns op ++ (store_ns 1 ++ (store_nl v ++ rest))

extended_negative :
    (v : ℕ) → 2147483648 ≤ v → v < 4294967296 → extended v ≡ v + (18446744073709551616 - 4294967296)
extended_negative v h k = ground arith

behind_start :
    (v len : ℕ)
    → 2147483648 ≤ v
    → v < 4294967288
    → past len (4 + (v + (18446744073709551616 - 4294967296)) + 4) ≡ false
unfolding past
behind_start v len h k = ground arith

module _ (op v : ℕ) (rest : List ℕ) (h : 2147483648 ≤ v) (k : v < 4294967288) where
  scanned :
      scan_args (announced op v rest) 1 4
      ≡ ok ((4 + (v + (18446744073709551616 - 4294967296)) + 4) % 18446744073709551616)
  unfolding scan_args
  scanned = rw (
    past_fits (length (announced op v rest)) 8 (omega arith) (omega arith),
    read_nl-store_nl v rest,
    extended_negative v h (omega arith),
    behind_start v (length (announced op v rest)) h k,
  )

  claimed : ncmd_iscomplete (announced op v rest) ≡ ok (v + 8)
  unfolding ncmd_iscomplete read_ns
  claimed = rw scanned (ground arith)

-- For a command with one argument whose announced length is at least 2 ^ 31 and below 2 ^ 32 - 8,
-- and fewer than 2 ^ 30 bytes behind it, ncmd_iscomplete() returns 8 more than the announced
-- length, and ncmd_remove() reads outside the buffer.
pub ncmd_iscomplete_overlong :
    (m : Memory) (op v : ℕ) (rest : List ℕ)
    → 2147483648 ≤ v
    → v < 4294967288
    → length rest < 1073741824
    → (ncmd_iscomplete (announced op v rest) ≡ ok (v + 8))
      × (ncmd_remove m (announced op v rest) ≡ fault)
unfolding ncmd_remove
ncmd_iscomplete_overlong m op v rest h k few =
    let accepted = claimed op v rest h k in (accepted, rw accepted (ground arith))
