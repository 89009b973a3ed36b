-- ===== src/Clchat/History/Lines.antt =====
-- The history as a list of lines.
use smsg.Base.{
  subst, ℕ, zero, suc, ◌-◌, ◌≤◌, ◌≡◌, refl, sym, ap, List, [], ◌∷◌, ◌++◌, length, take, set,
  get_elem?, Bool, true, false, some, arith,
}
use smsg.Base.Outcome.{ok}
use smsg.Base.Text.{Text}
use smsg.Clchat.Input.{Pointer, null, dangling, block, Ibuf, is_null}
use smsg.Clchat.History.{Slot, free, free_last}
use smsg.Clchat.History.Shift.{moved_on}

-- A buffer that has a text, with room behind it.
pub data Holds (bs : Ibuf) (t : Text) : Type 0 where
  holds :
      (spare : List ℕ)
      → bs.ibuf ≡ block (t ++ spare)
      → bs.ulen ≡ length t
      → length t ≤ bs.ttlen
      → Holds bs t

-- The elements behind the first have these lines, and then none; the first `n` were visited.
abbrev pub Rest : ℕ → List Slot → List Text → Type 0
Rest zero [] [] = Unit
Rest (suc n) [] [] = ⊥
Rest n [] (t ∷ ls) = ⊥
Rest zero (s ∷ q) [] = (is_null s.0.ibuf ≡ true) × (is_null s.1.ibuf ≡ true) × Rest zero q []
Rest (suc n) (s ∷ q) [] = ⊥
Rest zero (s ∷ q) (t ∷ ls) = Holds s.0 t × (is_null s.1.ibuf ≡ true) × Rest zero q ls
Rest (suc n) (s ∷ q) (t ∷ ls) = Holds s.0 t × Holds s.1 t × Rest n q ls

abbrev pub is_dangling : Pointer → Bool
is_dangling null = false
is_dangling dangling = true
is_dangling (block b) = false

-- The same, whatever copies there are, none of them freed.
abbrev pub Lines : List Slot → List Text → Type 0
Lines [] [] = Unit
Lines [] (t ∷ ls) = ⊥
Lines (s ∷ q) [] = (is_null s.0.ibuf ≡ true) × (is_dangling s.1.ibuf ≡ false) × Lines q []
Lines (s ∷ q) (t ∷ ls) = Holds s.0 t × (is_dangling s.1.ibuf ≡ false) × Lines q ls

-- What is read of the lines: the copies do not matter.
abbrev pub Shows : List Slot → List Text → Type 0
Shows [] [] = Unit
Shows [] (t ∷ ls) = ⊥
Shows (s ∷ q) [] = (is_null s.0.ibuf ≡ true) × Shows q []
Shows (s ∷ q) (t ∷ ls) = Holds s.0 t × Shows q ls

-- free() of both parts of the last element.
abbrev pub freed_pointer : Pointer → Pointer
freed_pointer null = null
freed_pointer dangling = dangling
freed_pointer (block b) = dangling

abbrev pub freed_ibuf : Ibuf → Ibuf
freed_ibuf bs = record bs { ibuf = freed_pointer bs.ibuf }

abbrev pub freed : List Slot → List Slot
freed [] = []
freed (s ∷ []) = (freed_ibuf s.0, freed_ibuf s.1) ∷ []
freed (s ∷ t ∷ q) = s ∷ freed (t ∷ q)

moved_on-unused :
    (n : ℕ) (s : Slot) (q : List Slot)
    → n ≡ length q
    → is_null s.0.ibuf ≡ true
    → Lines q []
    → Shows (moved_on n s (freed q)) []
unfolding moved_on
moved_on-unused zero s [] e h r = tt
moved_on-unused zero s (t ∷ q) e h r = absurd (omega arith)
moved_on-unused (suc n) s [] e h r = absurd (omega arith)
moved_on-unused (suc zero) s (t ∷ []) e h r = (h, tt)
moved_on-unused (suc (suc n)) s (t ∷ []) e h r = absurd (omega arith)
moved_on-unused (suc n) s (t ∷ u ∷ q) e h r = (h, moved_on-unused n t (u ∷ q) (omega arith) r.0 r.2)

pub moved_on-Shows :
    (n : ℕ) (s : Slot) (q : List Slot) (t : Text) (ls : List Text)
    → n ≡ length q
    → Holds s.0 t
    → Lines q ls
    → Shows (moved_on n s (freed q)) (take n (t ∷ ls))
unfolding moved_on
moved_on-Shows zero s [] t ls e h r = tt
moved_on-Shows zero s (u ∷ q) t ls e h r = absurd (omega arith)
moved_on-Shows (suc n) s [] t ls e h r = absurd (omega arith)
moved_on-Shows (suc zero) s (u ∷ []) t [] e h r = (h, tt)
moved_on-Shows (suc zero) s (u ∷ []) t (l ∷ ls) e h r = (h, tt)
moved_on-Shows (suc (suc n)) s (u ∷ []) t ls e h r = absurd (omega arith)
moved_on-Shows (suc zero) s (u ∷ v ∷ q) t [] e h r = absurd (omega arith)
moved_on-Shows (suc zero) s (u ∷ v ∷ q) t (l ∷ ls) e h r = absurd (omega arith)
moved_on-Shows (suc (suc n)) s (u ∷ v ∷ q) t [] e h r =
    (h, moved_on-unused (suc n) u (v ∷ q) (omega arith) r.0 r.2)
moved_on-Shows (suc (suc n)) s (u ∷ v ∷ q) t (l ∷ ls) e h r =
    (h, moved_on-Shows (suc n) u (v ∷ q) l ls (omega arith) r.0 r.2)

pub free_lem : (p : Pointer) → is_dangling p ≡ false → free p ≡ ok (freed_pointer p)
free_lem null h = refl
free_lem dangling h = cc
free_lem (block b) h = refl

pub Holds-is_dangling : (bs : Ibuf) (t : Text) → Holds bs t → is_dangling bs.ibuf ≡ false
Holds-is_dangling bs t (holds spare e l r) = ap is_dangling e

pub is_null-is_dangling : (p : Pointer) → is_null p ≡ true → is_dangling p ≡ false
is_null-is_dangling null h = refl
is_null-is_dangling dangling h = cc
is_null-is_dangling (block b) h = cc

-- The last element.
abbrev last_slot : Slot → List Slot → Slot
last_slot s [] = s
last_slot s (t ∷ q) = last_slot t q

last_at : (s : Slot) (q : List Slot) → get_elem? (s ∷ q) (length q) ≡ some (last_slot s q)
last_at s [] = refl
last_at s (t ∷ q) = last_at t q

abbrev pub freed_slot : Slot → Slot
freed_slot s = (freed_ibuf s.0, freed_ibuf s.1)

set_last :
    (s : Slot) (q : List Slot) → set (s ∷ q) (length q) (freed_slot (last_slot s q)) ≡ freed (s ∷ q)
set_last s [] = refl
set_last s (t ∷ q) = ap (◌∷◌ s) (set_last t q)

-- Neither pointer of an element was freed.
abbrev pub IsLive : Slot → Type 0
IsLive s = (is_dangling s.0.ibuf ≡ false) × (is_dangling s.1.ibuf ≡ false)

last-IsLive :
    (s : Slot) (q : List Slot) (ls : List Text) → IsLive s → Lines q ls → IsLive (last_slot s q)
last-IsLive s [] ls l r = l
last-IsLive s (u ∷ q) [] l r = last-IsLive u q [] (is_null-is_dangling u.0.ibuf r.0, r.1) r.2
last-IsLive s (u ∷ q) (t ∷ ls) l r = last-IsLive u q ls (Holds-is_dangling u.0 t r.0, r.1) r.2

pub free_last_lem :
    (s : Slot) (q : List Slot) (ls : List Text)
    → IsLive s
    → Lines q ls
    → free_last (s ∷ q) ≡ ok (freed (s ∷ q))
unfolding free_last
free_last_lem s q ls l r =
    let live = last-IsLive s q ls l r in
    let u = last_slot s q in
    let size : suc (length q) - 1 ≡ length q = omega arith in
    rw (size, last_at s q, free_lem u.0.ibuf live.0, free_lem u.1.ibuf live.1, set_last s q) refl

freed-is_null : (p : Pointer) → is_null p ≡ true → is_null (freed_pointer p) ≡ true
freed-is_null null h = refl
freed-is_null dangling h = cc
freed-is_null (block b) h = cc

-- A missing copy stays missing.
pub freed_copy :
    (q : List Slot) (i : ℕ) (c : Slot)
    → get_elem? q i ≡ some c
    → is_null c.1.ibuf ≡ true
    → (c' : Slot) × (get_elem? (freed q) i ≡ some c') × (is_null c'.1.ibuf ≡ true)
freed_copy [] i c e h = cc
freed_copy (s ∷ []) zero c e h =
    (freed_slot s, refl, freed-is_null s.1.ibuf (subst (λ x. is_null x.1.ibuf ≡ true) (sym same) h))
  where
    same : s ≡ c
    same = cc
freed_copy (s ∷ []) (suc i) c e h = cc
freed_copy (s ∷ t ∷ q) zero c e h = (c, e, h)
freed_copy (s ∷ t ∷ q) (suc i) c e h = freed_copy (t ∷ q) i c e h
