-- ===== src/Clchat/History/Rotate.antt =====
-- The line that was entered goes to the front of the history.
use smsg.Base.{
  suc, ◌-◌, ◌≤◌, ◌≡◌, refl, ap, List, [], ◌∷◌, length, take, set, get_elem?, true, some, arith,
}
use smsg.Base.Outcome.{Outcome, ok, ◌>>=◌}
use smsg.Base.Text.{Text}
use smsg.Clchat.Input.{null, is_null}
use smsg.Clchat.History.{Slot, History, slot_at, free_last, shift}
use smsg.Clchat.History.Shift.{moved_on, shift_lem}
use smsg.Clchat.History.Lines.{
  Holds, Lines, Shows, IsLive, freed, freed_ibuf, freed_copy, free_last_lem, moved_on-Shows,
}

-- The history with a new, empty line before the others.
abbrev pub anew : History → List Slot → History
anew h q = record h { iqueue = q; ibqi = 0; ibuf_pos = 0 }

-- The lines are moved on.
abbrev pub pushed : History → List Slot → Outcome History
pushed h q = do
  q ← free_last q
  q ← shift (length q - 1) h.ibqi q
  s ← slot_at q 0
  ok (anew h (set q 0 (record s.0 { ibuf = null }, s.1)))

length-freed : (q : List Slot) → length (freed q) ≡ length q
length-freed [] = refl
length-freed (s ∷ []) = refl
length-freed (s ∷ t ∷ q) = ap suc (length-freed (t ∷ q))

-- An array of one element.
pushed_only :
    (h : History) (s : Slot) (ls : List Text) (t : Text)
    → IsLive s
    → Lines [] ls
    → (s' : Slot) × (q' : List Slot) × (pushed h (s ∷ []) ≡ ok (anew h (s' ∷ q')))
      × (is_null s'.0.ibuf ≡ true)
      × Shows q' []
unfolding shift
pushed_only h s ls t l r = (
  (record s.0 { ibuf = null }, freed_ibuf s.1),
  [],
  rw (free_last_lem s [] ls l r) refl,
  refl,
  tt,
)

pub pushed_lem :
    (h : History) (s c : Slot) (q : List Slot) (t : Text) (ls : List Text)
    → Holds s.0 t
    → IsLive s
    → Lines q ls
    → get_elem? (s ∷ q) h.ibqi ≡ some c
    → is_null c.1.ibuf ≡ true
    → (s' : Slot) × (q' : List Slot) × (pushed h (s ∷ q) ≡ ok (anew h (s' ∷ q')))
      × (is_null s'.0.ibuf ≡ true)
      × Shows q' (take (length q) (t ∷ ls))
unfolding moved_on
pushed_lem h s c [] t ls d l r e k = pushed_only h s ls t l r
pushed_lem h s c (u ∷ q) t ls d l r e k =
    let (c', at_c', none_left) = freed_copy (s ∷ u ∷ q) h.ibqi c e k in
    let size : suc (length (freed (u ∷ q))) - 1 ≡ suc (length q) =
      omega (arith, length-freed (u ∷ q)) in
    let fits : suc (length q) ≤ length (freed (u ∷ q)) = omega (arith, length-freed (u ∷ q)) in
    (
      (record s.0 { ibuf = null }, s.1),
      moved_on (suc (length q)) s (freed (u ∷ q)),
      rw
          (
            free_last_lem s (u ∷ q) ls l r,
            size,
            shift_lem (suc (length q)) h.ibqi s c' (freed (u ∷ q)) at_c' none_left fits,
          )
          refl,
      refl,
      moved_on-Shows (suc (length q)) s (u ∷ q) t ls refl d r,
    )
