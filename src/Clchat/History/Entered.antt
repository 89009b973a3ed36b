-- ===== src/Clchat/History/Entered.antt =====
-- What is entered after going up in the history.
use smsg.Base.{
  ℕ, zero, suc, ◌+◌, ◌<◌, ◌≤◌, ◌≡◌, refl, sym, ap, ◌∙◌, subst, List, [], ◌∷◌, ◌++◌, length, take,
  set, replicate, get_elem?, length-append, take-append, Bool, true, some, arith, leb, le→leb,
  if◌then◌else◌,
}
use smsg.Base.Outcome.{Outcome, ok, fault, ◌>>=◌}
use smsg.Base.Memory.{Memory, IsPlentiful, realloc}
use smsg.Base.Text.{Text}
use smsg.Clchat.Input.{Ibuf, is_null, bytes_at, pointer_of}
use smsg.Clchat.History.{Slot, up, stay_round, stay_all, on_stay, entered_line}
use smsg.Clchat.History.Lines.{Holds, Rest, Lines, Holds-is_dangling, is_null-is_dangling}
use smsg.Clchat.History.Visit.{Holds-eq, text_buffer}
use smsg.Clchat.History.Recall.{Stands, history, line_at, room_at, goes_up, some_injective}

-- What is before an element is there too.
earlier :
    (l : List Text) (i j : ℕ) (t : Text)
    → get_elem? l j ≡ some t
    → i ≤ j
    → (u : Text) × (get_elem? l i ≡ some u)
earlier [] i j t e h = cc
earlier (c ∷ l) zero j t e h = (c, refl)
earlier (c ∷ l) (suc i) zero t e h = absurd (omega arith)
earlier (c ∷ l) (suc i) (suc j) t e h = earlier l i j t e (omega arith)

up_round :
    (m : Memory) (n pos : ℕ) (ins : Bool) (s : Slot) (q : List Slot) (cur t u : Text)
    (ls : List Text)
    → IsPlentiful m
    → Stands n s q cur ls
    → get_elem? (cur ∷ ls) n ≡ some t
    → get_elem? ls n ≡ some u
    → (s' : Slot) × (q' : List Slot) × (pos' : ℕ) × (stay_round m (history s q n pos ins) up
        ≡ ok (history s' q' (suc n) pos' ins))
      × Stands (suc n) s' q' cur ls
      × (length q' ≡ length q)
unfolding stay_round on_stay
up_round m n pos ins s q cur t u ls p h e f =
    let (s', q', roomy, h', same) = room_at m n pos ins s q cur t ls p h e in
    let (q'', pos', moved, h'', same') = goes_up m n pos ins s' q' cur u ls p h' f in
    (s', q'', pos', rw (roomy, moved) refl, h'', same' ∙ same)

pub ups :
    (m : Memory) (k n pos : ℕ) (ins : Bool) (s : Slot) (q : List Slot) (cur t : Text)
    (ls : List Text)
    → IsPlentiful m
    → Stands n s q cur ls
    → get_elem? (cur ∷ ls) (n + k) ≡ some t
    → (s' : Slot) × (q' : List Slot) × (pos' : ℕ) × (stay_all m
          (history s q n pos ins)
          (replicate k up)
        ≡ ok (history s' q' (n + k) pos' ins))
      × Stands (n + k) s' q' cur ls
      × (length q' ≡ length q)
unfolding stay_all
ups m zero n pos ins s q cur t ls p h e =
    let plain : n ≡ n + 0 = omega arith in
    (
      s,
      q,
      pos,
      ap (λ i. ok (history s q i pos ins)) plain,
      subst (λ i. Stands i s q cur ls) plain h,
      refl,
    )
ups m (suc k) n pos ins s q cur t ls p h e =
    let next : n + suc k ≡ suc n + k = omega arith in
    let later : get_elem? (cur ∷ ls) (suc n + k) ≡ some t =
      ap (get_elem? (cur ∷ ls)) (sym next) ∙ e in
    let (x, at_x) = earlier (cur ∷ ls) n (suc n + k) t later (omega arith) in
    let (y, at_y) = earlier (cur ∷ ls) (suc n) (suc n + k) t later (omega arith) in
    let (s', q', pos', moved, h', same) = up_round m n pos ins s q cur x y ls p h at_x at_y in
    let (s'', q'', pos'', done, h'', same') = ups m k (suc n) pos' ins s' q' cur t ls p h' later in
    (
      s'',
      q'',
      pos'',
      rw moved (done ∙ ap (λ i. ok (history s'' q'' i pos'' ins)) (sym next)),
      subst (λ i. Stands i s'' q'' cur ls) (sym next) h'',
      same' ∙ same,
    )

-- The copy of a line that is parsed.
abbrev bufcopy : Memory → Ibuf → Outcome (List ℕ)
bufcopy m bs = bytes_at (pointer_of (realloc m [] (bs.ulen + 1))) >>= λ t. bytes_at bs.ibuf >>= λ b.
    if leb bs.ulen (length b) then ok (take bs.ulen b ++ (0 ∷ [])) else fault

bufcopy_buffer :
    (m : Memory) (t : Text) (spare : List ℕ) (n : ℕ)
    → IsPlentiful m
    → bufcopy m (text_buffer t spare n) ≡ ok (t ++ (0 ∷ []))
unfolding realloc
bufcopy_buffer m t spare n p =
    let fits : leb (length t) (length (t ++ spare)) ≡ true =
      le→leb (length t) (length (t ++ spare)) (omega (arith, length-append t spare)) in
    rw (p.all_granted (length t + 1), fits, take-append (length t) t spare refl) refl

bufcopy-Holds :
    (m : Memory) (bs : Ibuf) (t : Text)
    → IsPlentiful m
    → Holds bs t
    → bufcopy m bs ≡ ok (t ++ (0 ∷ []))
bufcopy-Holds m bs t p h =
    let (spare, e, fits) = Holds-eq bs t h in ap (bufcopy m) e ∙ bufcopy_buffer m t spare bs.ttlen p

pub line_entered :
    (m : Memory) (n pos : ℕ) (ins : Bool) (s : Slot) (q : List Slot) (cur t : Text) (ls : List Text)
    → IsPlentiful m
    → Stands n s q cur ls
    → get_elem? (cur ∷ ls) n ≡ some t
    → entered_line m (history s q n pos ins) ≡ ok (t ++ (0 ∷ []))
unfolding entered_line
line_entered m zero pos ins s q cur t ls p h e =
    bufcopy-Holds m s.0 t p (subst (Holds s.0) (some_injective e) h.0)
line_entered m (suc n) pos ins s q cur t ls p h e =
    let (u, at_u, has) = line_at (suc n) n q ls t h.2 e in rw at_u (bufcopy-Holds m u.0 t p has)

-- No copy was freed.
pub Rest-Lines : (n : ℕ) (q : List Slot) (ls : List Text) → Rest n q ls → Lines q ls
Rest-Lines zero [] [] r = tt
Rest-Lines (suc n) [] [] r = elim r [ ]
Rest-Lines n [] (t ∷ ls) r = elim r [ ]
Rest-Lines zero (s ∷ q) [] r = (r.0, is_null-is_dangling s.1.ibuf r.1, Rest-Lines zero q [] r.2)
Rest-Lines (suc n) (s ∷ q) [] r = elim r [ ]
Rest-Lines zero (s ∷ q) (t ∷ ls) r =
    (r.0, is_null-is_dangling s.1.ibuf r.1, Rest-Lines zero q ls r.2)
Rest-Lines (suc n) (s ∷ q) (t ∷ ls) r = (r.0, Holds-is_dangling s.1 t r.1, Rest-Lines n q ls r.2)

-- The copy of a line that was visited.
pub copy_at :
    (n j : ℕ) (q : List Slot) (ls : List Text) (t : Text) (u : Slot)
    → Rest n q ls
    → j < n
    → get_elem? ls j ≡ some t
    → get_elem? q j ≡ some u
    → Holds u.1 t
copy_at n j [] ls t u r h e f = cc
copy_at zero j (s ∷ q) ls t u r h e f = absurd (omega arith)
copy_at (suc n) j (s ∷ q) [] t u r h e f = cc
copy_at (suc n) zero (s ∷ q) (l ∷ ls) t u r h e f =
    subst (λ (x : Slot). Holds x.1 t) (some_injective f) (subst (Holds s.1) (some_injective e) r.1)
copy_at (suc n) (suc j) (s ∷ q) (l ∷ ls) t u r h e f = copy_at n j q ls t u r.2 (omega arith) e f

-- The copy takes the place of the line.
pub put_back :
    (q : List Slot) (ls : List Text) (j : ℕ) (t : Text) (bs c : Ibuf)
    → Lines q ls
    → get_elem? ls j ≡ some t
    → Holds bs t
    → is_null c.ibuf ≡ true
    → Lines (set q j (bs, c)) ls
put_back [] ls j t bs c r e h k = r
put_back (s ∷ q) [] j t bs c r e h k = cc
put_back (s ∷ q) (l ∷ ls) zero t bs c r e h k =
    (subst (Holds bs) (sym (some_injective e)) h, is_null-is_dangling c.ibuf k, r.2)
put_back (s ∷ q) (l ∷ ls) (suc j) t bs c r e h k = (r.0, r.1, put_back q ls j t bs c r.2 e h k)

pub get_elem?-set :
    (q : List Slot) (j : ℕ) (u v : Slot) → get_elem? q j ≡ some u → get_elem? (set q j v) j ≡ some v
get_elem?-set [] j u v e = cc
get_elem?-set (s ∷ q) zero u v e = refl
get_elem?-set (s ∷ q) (suc j) u v e = get_elem?-set q j u v e
