-- ===== src/Queue.antt =====
-- servmisc.c: the queue of messages that a user has not read yet. A queue is a block of memory, a
-- doubleword with its size, a word with the number of messages, then the messages.
use smsg.Base.{
  ℕ, ◌+◌, ◌-◌, ◌%◌, List, [], ◌∷◌, ◌++◌, length, drop, take, Bool, true, false, ◌==◌, leb,
  if◌then◌else◌, Option, none, some,
}
use smsg.Base.Outcome.{Outcome, ok, failed, fault, ◌>>=◌}
use smsg.Base.Memory.{Memory, realloc, overwrite}
use smsg.Base.Text.{Text}
use smsg.Ncmd.Words.{store_nl, read_nl, store_ns, read_ns}
use smsg.Udata.{UdataEnt, udata_get, udata_get_qp, udata_set_qp, udata_add, udata_def_entry}

-- A string in memory, up to its NUL.
unfoldable pub read_string : List ℕ → Outcome Text
read_string [] = fault
read_string (a ∷ s) = let rest = read_string s >>= λ t. ok (a ∷ t) in if a == 0 then ok [] else rest

abbrev pub terminated : Text → List ℕ
terminated s = s ++ (0 ∷ [])

-- The doubleword and the four strings of a message of `l` bytes of text, written from `t` on.
unfoldable pub write_message : List ℕ → ℕ → ℕ → Text → Text → Text → Text → Outcome (List ℕ)
write_message q t l sendtime sender source_ip msg = do
  q ← overwrite q t (store_nl (l + 4))
  q ← overwrite q (t + 4) (terminated sendtime)
  q ← overwrite q (t + 4 + length sendtime + 1) (terminated sender)
  q ← overwrite q (t + 4 + length sendtime + 1 + length sender + 1) (terminated source_ip)
  overwrite q (t + 4 + length sendtime + 1 + length sender + 1 + length source_ip + 1)
      (terminated msg)

abbrev pub text_size : Text → Text → Text → Text → ℕ
text_size msg sendtime sender source_ip =
    length msg + length sendtime + length sender + length source_ip + 4

-- The branch for a user without a queue.
unfoldable pub first_message : Memory → Text → Text → Text → Text → Outcome (List ℕ)
unfolding write_message realloc overwrite
first_message m msg sendtime sender source_ip =
    let l = text_size msg sendtime sender source_ip in
    realloc m [] (l + 10) >>= λ q. overwrite q 0 (store_nl (l + 10)) >>= λ q.
    overwrite q 4 (store_ns 1) >>= λ q. write_message q 6 l sendtime sender source_ip msg

-- The branch for a user with the queue `q`. The table keeps the old pointer: it is the new one as
-- long as realloc() does not move the block.
unfoldable pub next_message : Memory → List ℕ → Text → Text → Text → Text → Outcome (List ℕ)
unfolding write_message realloc overwrite
next_message m q msg sendtime sender source_ip =
    let l = text_size msg sendtime sender source_ip in
    read_nl q >>= λ size. realloc m q (size + l) >>= λ q.
    overwrite q 0 (store_nl (size + l)) >>= λ q. read_ns (drop 4 q) >>= λ count.
    overwrite q 4 (store_ns (count + 1)) >>= λ q.
    write_message q size l sendtime sender source_ip msg

-- The table with the block that a branch filled, or -1.
abbrev pub store_queue :
    Memory → List UdataEnt → Text → Outcome (List ℕ) → Outcome (List UdataEnt × Bool)
store_queue m l user (ok q) = ok (udata_set_qp m l user (some q))
store_queue m l user failed = ok (l, false)
store_queue m l user fault = fault

-- mq_add() with no null pointer among the strings.
unfoldable pub mq_add :
    Memory → List UdataEnt → Text → Text → Text → Text → Text → Outcome (List UdataEnt × Bool)
unfolding udata_get_qp udata_add udata_set_qp first_message next_message
mq_add m l user msg sendtime sender source_ip = elim (udata_get_qp l user) [
  | some q ↦ store_queue m l user (next_message m q msg sendtime sender source_ip)
  | none ↦
      let (l', added) = udata_add m l (record udata_def_entry { user = some user }) in
      if added
      then store_queue m l' user (first_message m msg sendtime sender source_ip)
      else ok (l', false)
]

pub record Message : Type 0 where
  pub msg : Text
  pub sendtime : Text
  pub sender : Text
  pub source_ip : Text

-- What mq_get() hands out: the message (`none` for null pointers) and `*numleft`.
pub record Received : Type 0 where
  pub message : Option Message
  pub numleft : ℕ

-- The oldest message's strings; each is copied.
unfoldable pub copy_strings : Memory → List ℕ → Outcome Message
unfolding read_string
copy_strings m q =
    let copy : Text → Outcome Text = λ s. if m.copies s then ok s else failed in
    read_string (drop 10 q) >>= λ a. copy a >>= λ sendtime.
    read_string (drop (10 + length a + 1) q) >>= λ b. copy b >>= λ sender.
    read_string (drop (10 + length a + 1 + length b + 1) q) >>= λ c. copy c >>= λ source_ip.
    read_string (drop (10 + length a + 1 + length b + 1 + length c + 1) q) >>= λ d.
    copy d >>= λ msg.
    ok (record { msg = msg; sendtime = sendtime; sender = sender; source_ip = source_ip })

-- memmove() inside the block.
unfoldable pub move_within : List ℕ → ℕ → ℕ → ℕ → Outcome (List ℕ)
unfolding overwrite
move_within q dest src n =
    if leb (src + n) (length q) then overwrite q dest (take n (drop src q)) else fault

-- The block without its oldest message, `none` once it was the last, and whether 0 is returned:
-- a block that cannot shrink has changed all the same. `read_ns(qp+6)` and not `read_nl(qp+6)` is
-- what the source skips by.
unfoldable pub remove_oldest : Memory → List ℕ → Outcome (Option (List ℕ) × Bool)
unfolding move_within realloc overwrite
remove_oldest m q = do
  size ← read_nl q
  oldest ← read_nl (drop 6 q)
  q ← overwrite q 0 (store_nl ((size + 18446744073709551616 - oldest) % 18446744073709551616))
  count ← read_ns (drop 4 q)
  q ← overwrite q 4 (store_ns (count + 65535))
  left ← read_ns (drop 4 q)
  let rest = (do
    skipped ← read_ns (drop 6 q)
    size ← read_nl q
    q ← move_within q 6 (6 + skipped) ((size + 18446744073709551610) % 18446744073709551616)
    if m.grants size then (realloc m q size >>= λ q. ok (some q, true)) else ok (some q, false))
  if left == 0 then ok (none, true) else rest

-- The rest of mq_get(), by what the copies came to.
unfoldable pub finish_get :
    Memory
    → List UdataEnt
    → Text
    → List ℕ
    → ℕ
    → Outcome Message
    → Outcome (List UdataEnt × Received × Bool)
unfolding remove_oldest udata_set_qp
finish_get m l user q numleft (ok message) = remove_oldest m q >>= λ r.
    ok ((udata_set_qp m l user r.0).0, record { message = some message; numleft = numleft }, r.1)
finish_get m l user q numleft failed = ok (l, record { message = none; numleft = numleft }, false)
finish_get m l user q numleft fault = fault

unfoldable pub mq_get : Memory → List UdataEnt → Text → Outcome (List UdataEnt × Received × Bool)
unfolding udata_get_qp copy_strings finish_get
mq_get m l user = elim (udata_get_qp l user) [
  | none ↦ ok (l, record { message = none; numleft = 0 }, true)
  | some q ↦ read_ns q >>= λ numleft. finish_get m l user q numleft (copy_strings m q)
]

-- `read_ns(tent->queue+4)`, with no test of the pointer.
unfoldable pub mq_getnum : List UdataEnt → Text → Outcome ℕ
unfolding udata_get
mq_getnum l user = elim (udata_get l (some user)) [
  | none ↦ ok 0
  | some tent ↦ elim tent.queue [ none ↦ fault | some q ↦ read_ns (drop 4 q) ]
]
