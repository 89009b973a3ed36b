-- ===== src/Clchat/History/Shift.antt =====
-- The loop that moves the lines of the history on by one.
use smsg.Base.{
  ℕ, zero, suc, ◌<◌, ◌≤◌, ◌≡◌, refl, ap, ◌∙◌, List, [], ◌∷◌, length, set, get_elem?, length-set,
  true, some, arith,
}
use smsg.Base.Outcome.{ok}
use smsg.Clchat.Input.{is_null}
use smsg.Clchat.History.{Slot, shift}

-- Each element takes the line of the one before it, the first that of `s`, for `n` elements.
unfoldable pub moved_on : ℕ → Slot → List Slot → List Slot
moved_on zero s q = q
moved_on (suc n) s [] = []
moved_on (suc n) s (t ∷ q) = (s.0, t.1) ∷ moved_on n t q

moved_on-set :
    (i : ℕ) (s : Slot) (q : List Slot) (a b : Slot)
    → get_elem? (s ∷ q) i ≡ some a
    → get_elem? q i ≡ some b
    → moved_on i s (set q i (a.0, b.1)) ≡ moved_on (suc i) s q
unfolding moved_on
moved_on-set i s [] a b e f = cc
moved_on-set zero s (t ∷ q) a b e f = ground (arith, e, f)
moved_on-set (suc i) s (t ∷ q) a b e f = ap (◌∷◌ (s.0, t.1)) (moved_on-set i t q a b e f)

element : (q : List Slot) (i : ℕ) → i < length q → (a : Slot) × (get_elem? q i ≡ some a)
element [] i h = absurd (omega arith)
element (s ∷ q) zero h = (s, refl)
element (s ∷ q) (suc i) h = element q i (omega arith)

-- An element that takes another line keeps its copy.
copy_kept :
    (q : List Slot) (i k : ℕ) (a b c : Slot)
    → get_elem? q i ≡ some b
    → get_elem? q k ≡ some c
    → (c' : Slot) × (get_elem? (set q i (a.0, b.1)) k ≡ some c') × (c'.1 ≡ c.1)
copy_kept [] i k a b c e f = cc
copy_kept (s ∷ q) zero zero a b c e f = ((a.0, b.1), refl, cc)
copy_kept (s ∷ q) zero (suc k) a b c e f = (c, f, refl)
copy_kept (s ∷ q) (suc i) zero a b c e f = (c, f, refl)
copy_kept (s ∷ q) (suc i) (suc k) a b c e f = copy_kept q i k a b c e f

-- If the current line has no copy, all lines move on and no copy is touched.
pub shift_lem :
    (i ibqi : ℕ) (s c : Slot) (q : List Slot)
    → get_elem? (s ∷ q) ibqi ≡ some c
    → is_null c.1.ibuf ≡ true
    → i ≤ length q
    → shift i ibqi (s ∷ q) ≡ ok (s ∷ moved_on i s q)
unfolding shift moved_on
shift_lem zero ibqi s c q at_c no_copy h = refl
shift_lem (suc i) ibqi s c q at_c no_copy h =
    let (a, at_a) = element (s ∷ q) i (omega arith) in
    let (b, at_b) = element q i (omega arith) in
    let (c', at_c', same) = copy_kept (s ∷ q) (suc i) ibqi a b c at_b at_c in
    let size = length-set q i (a.0, b.1) in
    rw (at_c, no_copy, at_a, at_b)
      (shift_lem i ibqi s c' (set q i (a.0, b.1)) at_c' (ap (λ x. is_null x.ibuf) same ∙ no_copy)
          (omega (arith, size))
        ∙ ap (λ l. ok (s ∷ l)) (moved_on-set i s q a b at_a at_b))
