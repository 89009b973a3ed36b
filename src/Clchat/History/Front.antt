-- ===== src/Clchat/History/Front.antt =====
-- A line that is typed or recalled goes to the front of the history when it is entered.
use smsg.Base.{
  ℕ, zero, suc, ◌+◌, ◌≡◌, refl, sym, ap, ◌∙◌, subst, List, [], ◌∷◌, ◌++◌, length, take, set,
  replicate, get_elem?, length-set, Bool, true, false, some, arith, ◌==◌,
}
use smsg.Base.Outcome.{ok}
use smsg.Base.Memory.{Memory, IsPlentiful}
use smsg.Base.Text.{Text}
use smsg.Clchat.Input.{null, Ibuf, is_null}
use smsg.Clchat.History.{Slot, History, with_room, up, stay_all, entered_line, next_line, recalled}
use smsg.Clchat.History.Lines.{Shows, Holds-is_dangling, is_null-is_dangling, free_lem}
use smsg.Clchat.History.Recall.{Stands, history, line_at, room_at, some_injective}
use smsg.Clchat.History.Entered.{ups, line_entered, Rest-Lines, copy_at, put_back, get_elem?-set}
use smsg.Clchat.History.Rotate.{anew, pushed_lem}

-- The lines after one of them was entered.
abbrev pub IsPushed : History → ℕ → List Text → Type 0
IsPushed h n ls =
    (s : Slot) × (q : List Slot) × (next_line h ≡ ok (anew h (s ∷ q)))
    × (is_null s.0.ibuf ≡ true)
    × Shows q (take n ls)

IsPushed-typed :
    (pos : ℕ) (ins : Bool) (s : Slot) (q : List Slot) (cur : Text) (ls : List Text)
    → Stands 0 s q cur ls
    → IsPushed (history s q 0 pos ins) (length q) (cur ∷ ls)
unfolding next_line recalled
IsPushed-typed pos ins s q cur ls h =
    pushed_lem (history s q 0 pos ins) s s q cur ls h.0
      (Holds-is_dangling s.0 cur h.0, is_null-is_dangling s.1.ibuf h.1) (Rest-Lines 0 q ls h.2) refl
      h.1

IsPushed-recalled :
    (n pos : ℕ) (ins : Bool) (s : Slot) (q : List Slot) (cur t : Text) (ls : List Text)
    → Stands (suc n) s q cur ls
    → get_elem? ls n ≡ some t
    → IsPushed (history s q (suc n) pos ins) (length q) (t ∷ ls)
unfolding next_line recalled
IsPushed-recalled n pos ins s q cur t ls h e =
    let (u, at_u, has) = line_at (suc n) n q ls t h.2 e in
    let copied = copy_at (suc n) n q ls t u h.2 (omega arith) e at_u in
    let c : Ibuf = record u.1 { ibuf = null } in
    let q' = set q n (u.1, c) in
    let lines = put_back q ls n t u.1 c (Rest-Lines (suc n) q ls h.2) e copied refl in
    let at_c = get_elem?-set q n u (u.1, c) at_u in
    let not_first : (suc n == 0) ≡ false = ground arith in
    let first = free_lem s.0.ibuf (Holds-is_dangling s.0 cur h.0) in
    let (s'', q'', done, empty, shown) =
      pushed_lem (history s q (suc n) pos ins) (u.0, s.1) (u.1, c) q' t ls has
        (Holds-is_dangling u.0 t has, is_null-is_dangling s.1.ibuf h.1) lines at_c refl in
    (s'', q'', rw (not_first, at_u, first) done, empty, rw (length-set q n (u.1, c)) at shown)

pub IsPushed-from :
    (n pos : ℕ) (ins : Bool) (s : Slot) (q : List Slot) (cur t : Text) (ls : List Text)
    → Stands n s q cur ls
    → get_elem? (cur ∷ ls) n ≡ some t
    → IsPushed (history s q n pos ins) (length q) (t ∷ ls)
IsPushed-from zero pos ins s q cur t ls h e =
    subst (λ (x : Text). IsPushed (history s q 0 pos ins) (length q) (x ∷ ls)) (some_injective e)
      (IsPushed-typed pos ins s q cur ls h)
IsPushed-from (suc n) pos ins s q cur t ls h e = IsPushed-recalled n pos ins s q cur t ls h e

-- With memory plentiful, from a line that is typed before the history's lines, none of them
-- visited, going up as often as there is a line for and then entering gives the bytes of just that
-- line with a NUL; and the history afterwards, behind its new line, is that line and then the older
-- ones unchanged, as many as fit, as a list of texts has them.
pub next_line-stay_all :
    (m : Memory) (k pos : ℕ) (ins : Bool) (s : Slot) (q : List Slot) (cur t : Text) (ls : List Text)
    → IsPlentiful m
    → Stands 0 s q cur ls
    → get_elem? (cur ∷ ls) k ≡ some t
    → (h : History) × (h' : History) × (stay_all m (history s q 0 pos ins) (replicate k up) ≡ ok h)
      × (with_room m h ≡ ok h')
      × (entered_line m h' ≡ ok (t ++ (0 ∷ [])))
      × IsPushed h' (length q) (t ∷ ls)
next_line-stay_all m k pos ins s q cur t ls p h e =
    let plain : k ≡ 0 + k = omega arith in
    let at_t : get_elem? (cur ∷ ls) (0 + k) ≡ some t = ap (get_elem? (cur ∷ ls)) (sym plain) ∙ e in
    let (s', q', pos', gone, h', same) = ups m k 0 pos ins s q cur t ls p h at_t in
    let (s'', q'', roomy, h'', same') = room_at m (0 + k) pos' ins s' q' cur t ls p h' at_t in
    (
      history s' q' (0 + k) pos' ins,
      history s'' q'' (0 + k) pos' ins,
      gone,
      roomy,
      line_entered m (0 + k) pos' ins s'' q'' cur t ls p h'' at_t,
      subst (λ n. IsPushed (history s'' q'' (0 + k) pos' ins) n (t ∷ ls)) (same' ∙ same)
          (IsPushed-from (0 + k) pos' ins s'' q'' cur t ls h'' at_t),
    )
