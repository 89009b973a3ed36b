-- ===== src/Clchat/History.antt =====
-- clchat.c, chatter_func(): the history of lines, iqueue[CMDLINE_HISTLEN][2]. Each element has the
-- line and, once it was visited, a copy of it as it was.
pub mod Shift
pub mod Lines
pub mod Rotate
pub mod Visit
pub mod Recall
pub mod Entered
pub mod Front
pub mod Freed
use smsg.Base.{
  ℕ, zero, suc, ◌+◌, ◌-◌, List, [], ◌∷◌, ◌++◌, length, take, set, replicate, get_elem?, Bool, true,
  false, not, ◌&&◌, ◌==◌, ltb, leb, if◌then◌else◌, Option, none, some, on_option,
}
use smsg.Base.Outcome.{Outcome, ok, failed, fault, ◌>>=◌, ◌>>◌}
use smsg.Base.Memory.{Memory, realloc}
use smsg.Clchat.Input.{
  Pointer, null, dangling, block, Ibuf, pointer_of, bytes_at, is_null, make_room, Line, Key,
  edit_key,
}

abbrev pub Slot : Type 0
Slot = Ibuf × Ibuf

pub record History : Type 0 where
  pub iqueue : List Slot
  pub ibqi : ℕ
  pub ibuf_pos : ℕ
  pub insertmode : Bool

abbrev pub empty_ibuf : Ibuf
empty_ibuf = record { ibuf = null; ttlen = 0; ulen = 0 }

-- An element of the array; outside of it there is none.
abbrev pub slot_at : List Slot → ℕ → Outcome Slot
slot_at q i = on_option (get_elem? q i) fault λ s. ok s

-- free(); the pointer then dangles, unless it was null.
abbrev pub free : Pointer → Outcome Pointer
free null = ok null
free dangling = fault
free (block b) = ok dangling

-- malloc() and memcpy() of the first `n` bytes behind a pointer.
unfoldable pub copied_block : Memory → Pointer → ℕ → Outcome (List ℕ)
copied_block m p n = bytes_at (pointer_of (realloc m [] n)) >>= λ t.
    bytes_at p >>= λ b. if leb n (length b) then ok (take n b) else fault

-- The copy that is kept of a line: `ttlen` and `ulen` are the line's.
unfoldable pub kept_copy : Memory → Ibuf → Outcome Ibuf
unfolding copied_block
kept_copy m bs = copied_block m bs.ibuf bs.ulen >>= λ b. ok (record bs { ibuf = block b })

-- UGLY_CURSOR_MOVEMENT_GOTO, with the new `ibqi`.
unfoldable pub move_to : Memory → History → ℕ → Outcome History
move_to m h i = slot_at h.iqueue i >>= λ s.
    let h' : History = record h { ibqi = i; ibuf_pos = s.0.ulen } in
    if not (i == 0) && is_null s.1.ibuf
    then (kept_copy m s.0 >>= λ c. ok (record h' { iqueue = set h.iqueue i (s.0, c) }))
    else ok h'

-- `case KEY_UP`
unfoldable pub line_up : Memory → History → Outcome History
line_up m h =
    let i = h.ibqi + 1 in
    if ltb i (length h.iqueue)
    then (slot_at h.iqueue i >>= λ s. if is_null s.0.ibuf then ok h else move_to m h i)
    else ok h

-- `case KEY_DOWN`
unfoldable pub line_down : Memory → History → Outcome History
line_down m h = if ltb 0 h.ibqi then move_to m h (h.ibqi - 1) else ok h

-- The first statements of a round: room for a character in the line.
unfoldable pub with_room : Memory → History → Outcome History
unfolding make_room
with_room m h = slot_at h.iqueue h.ibqi >>= λ s.
    make_room m s.0 >>= λ bs. ok (record h { iqueue = set h.iqueue h.ibqi (bs, s.1) })

-- A key that stays on the line.
unfoldable pub edit_line : Memory → History → Key → Outcome History
unfolding edit_key
edit_line m h key = slot_at h.iqueue h.ibqi >>= λ s.
    edit_key m (record { buffer = s.0; ibuf_pos = h.ibuf_pos; insertmode = h.insertmode }) key
    >>= λ l. ok (record h {
      iqueue = set h.iqueue h.ibqi (l.buffer, s.1);
      ibuf_pos = l.ibuf_pos;
      insertmode = l.insertmode;
    })

-- A key that ends a round with `continue`, Tab excepted.
pub data Stay : Type 0 where
  edits : Key → Stay
  up down : Stay

unfoldable pub on_stay : Memory → History → Stay → Outcome History
on_stay m h (edits key) = edit_line m h key
on_stay m h up = line_up m h
on_stay m h down = line_down m h

unfoldable pub stay_round : Memory → History → Stay → Outcome History
unfolding with_room on_stay
stay_round m h key = with_room m h >>= λ h'. on_stay m h' key

unfoldable pub stay_all : Memory → History → List Stay → Outcome History
stay_all m h [] = ok h
stay_all m h (k ∷ ks) = stay_round m h k >>= λ h'. stay_all m h' ks

-- `case '\n': case '\r': case KEY_ENTER`: `bufcopy`.
unfoldable pub entered_line : Memory → History → Outcome (List ℕ)
entered_line m h = slot_at h.iqueue h.ibqi >>= λ s.
    bytes_at (pointer_of (realloc m [] (s.0.ulen + 1))) >>= λ t. bytes_at s.0.ibuf >>= λ b.
    if leb s.0.ulen (length b) then ok (take s.0.ulen b ++ (0 ∷ [])) else fault

-- `if(ibqi != 0)`: the line goes to the front, and its copy to its place.
unfoldable pub recalled : ℕ → List Slot → Outcome (List Slot)
recalled i q =
    if i == 0
    then ok q
    else (slot_at q 0 >>= λ first. slot_at q i >>= λ s. free first.0.ibuf >>= λ p.
        ok (set (set q 0 (s.0, first.1)) i (s.1, record s.1 { ibuf = null })))

-- free() of both parts of the last element.
unfoldable pub free_last : List Slot → Outcome (List Slot)
free_last q = slot_at q (length q - 1) >>= λ s. free s.0.ibuf >>= λ p. free s.1.ibuf >>= λ p'.
    ok (set q (length q - 1) (record s.0 { ibuf = p }, record s.1 { ibuf = p' }))

-- `free(iqueue[i][1].ibuf); iqueue[i][1].ibuf = NULL`
unfoldable pub drop_copy : ℕ → List Slot → Outcome (List Slot)
drop_copy i q =
    slot_at q i >>= λ s. free s.1.ibuf >>= λ p. ok (set q i (s.0, record s.1 { ibuf = null }))

-- `for(i=CMDLINE_HISTLEN-1; i>0; i--)`, from `i` on.
unfoldable pub shift : ℕ → ℕ → List Slot → Outcome (List Slot)
unfolding drop_copy
shift zero ibqi q = ok q
shift (suc i) ibqi q = slot_at q ibqi >>= λ cur.
    (if is_null cur.1.ibuf then ok q else drop_copy i q) >>= λ q.
    slot_at q i >>= λ s. slot_at q (suc i) >>= λ t. shift i ibqi (set q (suc i) (s.0, t.1))

-- What is done with the lines once a command was executed.
unfoldable pub next_line : History → Outcome History
next_line h = do
  q ← recalled h.ibqi h.iqueue
  q ← free_last q
  q ← shift (length q - 1) h.ibqi q
  s ← slot_at q 0
  ok (record h { iqueue = set q 0 (record s.0 { ibuf = null }, s.1); ibqi = 0; ibuf_pos = 0 })
