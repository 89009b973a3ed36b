-- ===== src/Clchat/History/Recall.antt =====
-- A line of the history is recalled and entered.
use smsg.Base.{
  ℕ, zero, suc, ◌+◌, ◌≡◌, refl, sym, ap, subst, List, [], ◌∷◌, length, set, get_elem?, Bool, true,
  false, some, arith, ltb, lt→ltb, ◌==◌, get_elem?-eq-some, length-set,
}
use smsg.Base.Outcome.{ok}
use smsg.Base.Memory.{Memory, IsPlentiful}
use smsg.Base.Text.{Text}
use smsg.Clchat.Input.{Ibuf, is_null}
use smsg.Clchat.History.{Slot, History, move_to, line_up, with_room}
use smsg.Clchat.History.Lines.{Holds, holds, Rest}
use smsg.Clchat.History.Visit.{make_room-Holds, kept_copy-Holds}

Holds-is_null : (bs : Ibuf) (t : Text) → Holds bs t → is_null bs.ibuf ≡ false
Holds-is_null bs t (holds spare e l r) = ap is_null e

-- The first element has the line that is typed, the others what was entered; `n` were visited.
abbrev pub Stands : ℕ → Slot → List Slot → Text → List Text → Type 0
Stands n s q cur ls = Holds s.0 cur × (is_null s.1.ibuf ≡ true) × Rest n q ls

abbrev pub history : Slot → List Slot → ℕ → ℕ → Bool → History
history s q n pos ins = record { iqueue = s ∷ q; ibqi = n; ibuf_pos = pos; insertmode = ins }

pub some_injective : {A : Type 0} {a b : A} → some a ≡ some b → a ≡ b
some_injective e = cc

-- The element of a line.
pub line_at :
    (n j : ℕ) (q : List Slot) (ls : List Text) (t : Text)
    → Rest n q ls
    → get_elem? ls j ≡ some t
    → (s : Slot) × (get_elem? q j ≡ some s) × Holds s.0 t
line_at n j [] [] t r e = cc
line_at n j [] (l ∷ ls) t r e = elim r [ ]
line_at zero j (s ∷ q) [] t r e = cc
line_at (suc n) j (s ∷ q) [] t r e = elim r [ ]
line_at zero zero (s ∷ q) (l ∷ ls) t r e = (s, refl, subst (Holds s.0) (cc e) r.0)
line_at (suc n) zero (s ∷ q) (l ∷ ls) t r e = (s, refl, subst (Holds s.0) (cc e) r.0)
line_at zero (suc j) (s ∷ q) (l ∷ ls) t r e = line_at zero j q ls t r.2 e
line_at (suc n) (suc j) (s ∷ q) (l ∷ ls) t r e = line_at n j q ls t r.2 e

-- Its buffer may be replaced by one with the same line.
set_line :
    (n j : ℕ) (q : List Slot) (ls : List Text) (t : Text) (s : Slot) (bs : Ibuf)
    → Rest n q ls
    → get_elem? ls j ≡ some t
    → get_elem? q j ≡ some s
    → Holds bs t
    → Rest n (set q j (bs, s.1)) ls
set_line n j [] ls t s bs r e f h = cc
set_line zero j (u ∷ q) [] t s bs r e f h = cc
set_line (suc n) j (u ∷ q) [] t s bs r e f h = elim r [ ]
set_line zero zero (u ∷ q) (l ∷ ls) t s bs r e f h = (
  subst (Holds bs) (sym (some_injective e)) h,
  subst (λ (x : Slot). is_null x.1.ibuf ≡ true) (some_injective f) r.1,
  r.2,
)
set_line (suc n) zero (u ∷ q) (l ∷ ls) t s bs r e f h = (
  subst (Holds bs) (sym (some_injective e)) h,
  subst (λ (x : Slot). Holds x.1 l) (some_injective f) r.1,
  r.2,
)
set_line zero (suc j) (u ∷ q) (l ∷ ls) t s bs r e f h =
    (r.0, r.1, set_line zero j q ls t s bs r.2 e f h)
set_line (suc n) (suc j) (u ∷ q) (l ∷ ls) t s bs r e f h =
    (r.0, r.1, set_line n j q ls t s bs r.2 e f h)

-- The next line to be visited has no copy, and gets one.
set_copy :
    (n : ℕ) (q : List Slot) (ls : List Text) (t : Text) (s : Slot) (c : Ibuf)
    → Rest n q ls
    → get_elem? ls n ≡ some t
    → get_elem? q n ≡ some s
    → Holds c t
    → (is_null s.1.ibuf ≡ true) × Rest (suc n) (set q n (s.0, c)) ls
set_copy n [] ls t s c r e f h = cc
set_copy zero (u ∷ q) [] t s c r e f h = cc
set_copy (suc n) (u ∷ q) [] t s c r e f h = elim r [ ]
set_copy zero (u ∷ q) (l ∷ ls) t s c r e f h = (
  subst (λ (x : Slot). is_null x.1.ibuf ≡ true) (some_injective f) r.1,
  (
    subst (λ (x : Slot). Holds x.0 l) (some_injective f) r.0,
    subst (Holds c) (sym (some_injective e)) h,
    r.2,
  ),
)
set_copy (suc n) (u ∷ q) (l ∷ ls) t s c r e f h =
    let (k, rest) = set_copy n q ls t s c r.2 e f h in (k, (r.0, r.1, rest))

-- There is room in the current line.
pub room_at :
    (m : Memory) (n pos : ℕ) (ins : Bool) (s : Slot) (q : List Slot) (cur t : Text) (ls : List Text)
    → IsPlentiful m
    → Stands n s q cur ls
    → get_elem? (cur ∷ ls) n ≡ some t
    → (s' : Slot) × (q' : List Slot) × (with_room m (history s q n pos ins)
        ≡ ok (history s' q' n pos ins))
      × Stands n s' q' cur ls
      × (length q' ≡ length q)
unfolding with_room
room_at m zero pos ins s q cur t ls p h e =
    let (bs, made, has) = make_room-Holds m s.0 cur p h.0 in
    ((bs, s.1), q, rw made refl, (has, h.1, h.2), refl)
room_at m (suc n) pos ins s q cur t ls p h e =
    let (u, at_u, has_t) = line_at (suc n) n q ls t h.2 e in
    let (bs, made, has) = make_room-Holds m u.0 t p has_t in
    (
      s,
      set q n (bs, u.1),
      rw (at_u, made) refl,
      (h.0, h.1, set_line (suc n) n q ls t u bs h.2 e at_u has),
      length-set q n (bs, u.1),
    )

-- One step up.
pub goes_up :
    (m : Memory) (n pos : ℕ) (ins : Bool) (s : Slot) (q : List Slot) (cur t : Text) (ls : List Text)
    → IsPlentiful m
    → Stands n s q cur ls
    → get_elem? ls n ≡ some t
    → (q' : List Slot) × (pos' : ℕ) × (line_up m (history s q n pos ins)
        ≡ ok (history s q' (suc n) pos' ins))
      × Stands (suc n) s q' cur ls
      × (length q' ≡ length q)
unfolding line_up move_to
goes_up m n pos ins s q cur t ls p h e =
    let (u, at_u, has_t) = line_at n n q ls t h.2 e in
    let (c, made, has) = kept_copy-Holds m u.0 t p has_t in
    let (no_copy, rest) = set_copy n q ls t u c h.2 e at_u has in
    let there : ltb (n + 1) (suc (length q)) ≡ true =
      lt→ltb (n + 1) (suc (length q)) (omega (arith, get_elem?-eq-some q n u at_u)) in
    let next : n + 1 ≡ suc n = omega arith in
    let not_first : (suc n == 0) ≡ false = ground arith in
    let filled : is_null u.0.ibuf ≡ false = Holds-is_null u.0 t has_t in
    (
      set q n (u.0, c),
      u.0.ulen,
      rw (there, next, at_u, filled, not_first, no_copy, made) refl,
      (h.0, h.1, rest),
      length-set q n (u.0, c),
    )
