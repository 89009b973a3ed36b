-- ===== src/Clchat/History/Freed.antt =====
-- The copy of the last line of the history is freed, and its pointer stays.
use smsg.Base.{
  ℕ, zero, suc, ◌-◌, ◌<◌, ◌≤◌, ◌≡◌, ◌≢◌, refl, sym, ap, ◌∙◌, subst, List, [], ◌∷◌, length, set,
  get_elem?, length-set, Bool, true, false, some, ◌==◌, if◌then◌else◌, arith, Bool-cases,
  Option-cases, inl, inr,
}
use smsg.Base.Outcome.{Outcome, ok, failed, fault, ◌>>=◌, ok_injective}
use smsg.Clchat.Input.{Pointer, null, dangling, block, is_null, Ibuf}
use smsg.Clchat.History.{
  Slot, History, slot_at, free, recalled, free_last, drop_copy, shift, next_line,
}
use smsg.Clchat.History.Recall.{history, some_injective}

-- The last of `n` and one elements has a copy behind this pointer.
pub record LastCopy (n : ℕ) (p : Pointer) (q : List Slot) : Type 0 where
  pub size : length q ≡ suc n
  pub last : Slot
  pub at_last : get_elem? q n ≡ some last
  pub copy : last.1.ibuf ≡ p

set_other : (q : List Slot) (i j : ℕ) (x : Slot) → i ≢ j → get_elem? (set q i x) j ≡ get_elem? q j
set_other [] i j x h = refl
set_other (s ∷ q) zero zero x h = absurd (h refl)
set_other (s ∷ q) zero (suc j) x h = refl
set_other (s ∷ q) (suc i) zero x h = refl
set_other (s ∷ q) (suc i) (suc j) x h = set_other q i j x (ground arith)

set_there : (q : List Slot) (j : ℕ) (x : Slot) → j < length q → get_elem? (set q j x) j ≡ some x
set_there [] j x h = absurd (omega arith)
set_there (s ∷ q) zero x h = refl
set_there (s ∷ q) (suc j) x h = set_there q j x (omega arith)

set-LastCopy :
    (n j : ℕ) (p : Pointer) (q : List Slot) (x : Slot)
    → j < n
    → LastCopy n p q
    → LastCopy n p (set q j x)
set-LastCopy n j p q x h l = record {
  size = length-set q j x ∙ l.size;
  last = l.last;
  at_last = set_other q j n x (ground arith) ∙ l.at_last;
  copy = l.copy;
}

set_last-LastCopy :
    (n : ℕ) (p p' : Pointer) (q : List Slot) (x : Slot)
    → x.1.ibuf ≡ p'
    → LastCopy n p q
    → LastCopy n p' (set q n x)
set_last-LastCopy n p p' q x h l = record {
  size = length-set q n x ∙ l.size;
  last = x;
  at_last = set_there q n x (omega (arith, l.size));
  copy = h;
}

-- What holds of a result, if there is one.
abbrev Yields : {A : Type 0} → (A → Type 0) → Outcome A → Type 0
Yields P (ok a) = P a
Yields P failed = Unit
Yields P fault = Unit

bind-Yields :
    {A B : Type 0} (P : B → Type 0) (o : Outcome A) (f : A → Outcome B)
    → ((a : A) → o ≡ ok a → Yields P (f a))
    → Yields P (o >>= f)
bind-Yields P (ok a) f k = k a refl
bind-Yields P failed f k = tt
bind-Yields P fault f k = tt

slot_at-some : (q : List Slot) (i : ℕ) (s : Slot) → slot_at q i ≡ ok s → get_elem? q i ≡ some s
slot_at-some q i s e = elim (Option-cases (get_elem? q i)) [
  | inl none_there ↦ (let bad : fault ≡ ok s = rw none_there at e in cc)
  | inr t ↦ t.1 ∙ (let same : ok t.0 ≡ ok s = rw t.1 at e in ap some (ok_injective same))
]

recalled-LastCopy :
    (n i : ℕ) (p : Pointer) (q : List Slot)
    → i < n
    → LastCopy n p q
    → Yields (LastCopy n p) (recalled i q)
unfolding recalled
recalled-LastCopy n zero p q h l = l
recalled-LastCopy n (suc i) p q h l =
    let not_first : (suc i == 0) ≡ false = ground arith in
    rw not_first (
      bind-Yields (LastCopy n p) (slot_at q 0) _ λ first e.
        bind-Yields (LastCopy n p) (slot_at q (suc i)) _ λ s e'.
          bind-Yields (LastCopy n p) (free first.0.ibuf) _
            λ x e''. set-LastCopy n (suc i) p _ _ h (set-LastCopy n 0 p q _ (omega arith) l))

free_last-LastCopy :
    (n : ℕ) (b : List ℕ) (q : List Slot)
    → LastCopy n (block b) q
    → Yields (LastCopy n dangling) (free_last q)
unfolding free_last
free_last-LastCopy n b q l =
    let at_n : length q - 1 ≡ n = omega (arith, l.size) in
    rw (at_n, l.at_last, l.copy)
      (bind-Yields (LastCopy n dangling) (free l.last.0.ibuf) _
        λ x e. set_last-LastCopy n (block b) dangling q _ refl l)

drop_copy-LastCopy :
    (n i : ℕ) (p : Pointer) (q : List Slot)
    → i < n
    → LastCopy n p q
    → Yields (LastCopy n p) (drop_copy i q)
unfolding drop_copy
drop_copy-LastCopy n i p q h l =
    bind-Yields (LastCopy n p) (slot_at q i) _
      λ s e. bind-Yields (LastCopy n p) (free s.1.ibuf) _ λ x e'. set-LastCopy n i p q _ h l

-- Moving a line keeps the copies.
moved-LastCopy :
    (n j : ℕ) (p : Pointer) (q : List Slot) (a : Ibuf) (t : Slot)
    → j ≤ n
    → get_elem? q j ≡ some t
    → LastCopy n p q
    → LastCopy n p (set q j (a, t.1))
moved-LastCopy n j p q a t h e l = elim (Bool-cases (j == n)) [
  | inl same ↦
      let at_n : j ≡ n = ground arith in
      let its : t ≡ l.last = some_injective (sym e ∙ ap (get_elem? q) at_n ∙ l.at_last) in
      subst (λ k. LastCopy n p (set q k (a, t.1))) (sym at_n)
        (set_last-LastCopy n p p q (a, t.1) (ap (λ (x : Slot). x.1.ibuf) its ∙ l.copy) l)
  | inr other ↦ set-LastCopy n j p q _ (ground arith) l
]

-- A copy of an earlier line may be dropped.
dropped-LastCopy :
    (n j : ℕ) (p : Pointer) (q q' : List Slot) (b : Bool)
    → j < n
    → LastCopy n p q
    → (if b then ok q else drop_copy j q) ≡ ok q'
    → LastCopy n p q'
dropped-LastCopy n j p q q' true h l e = subst (LastCopy n p) (ok_injective e) l
dropped-LastCopy n j p q q' false h l e =
    subst (Yields (LastCopy n p)) e (drop_copy-LastCopy n j p q h l)

shift-LastCopy :
    (n j i : ℕ) (p : Pointer) (q : List Slot)
    → j ≤ n
    → LastCopy n p q
    → Yields (LastCopy n p) (shift j i q)
unfolding shift
shift-LastCopy n zero i p q h l = l
shift-LastCopy n (suc j) i p q h l = bind-Yields (LastCopy n p) (slot_at q i) _ λ cur e.
    bind-Yields (LastCopy n p) (if is_null cur.1.ibuf then ok q else drop_copy j q) _ λ q' e'.
      bind-Yields (LastCopy n p) (slot_at q' j) _ λ s at_s.
        bind-Yields (LastCopy n p) (slot_at q' (suc j)) _ λ t at_t.
          shift-LastCopy n j i p _ (omega arith) (
            moved-LastCopy n (suc j) p q' s.0 t h (slot_at-some q' (suc j) t at_t)
              (dropped-LastCopy n j p q q' (is_null cur.1.ibuf) h l e'))

-- The lines once one was entered, if another than the last.
next_line-LastCopy :
    (n : ℕ) (b : List ℕ) (h : History)
    → h.ibqi < n
    → LastCopy n (block b) h.iqueue
    → Yields (λ h'. LastCopy n dangling h'.iqueue) (next_line h)
unfolding next_line
next_line-LastCopy n b h there l =
    let P : History → Type 0 = λ h'. LastCopy n dangling h'.iqueue in
    bind-Yields P (recalled h.ibqi h.iqueue) _ λ q e. bind-Yields P (free_last q) _ λ q' e'.
      let recalled_there : LastCopy n (block b) q =
        subst (Yields (LastCopy n (block b))) e
          (recalled-LastCopy n h.ibqi (block b) h.iqueue there l) in
      let freed_there : LastCopy n dangling q' =
        subst (Yields (LastCopy n dangling)) e' (free_last-LastCopy n b q recalled_there) in
      bind-Yields P (shift (length q' - 1) h.ibqi q') _ λ q'' e''.
        let moved_there : LastCopy n dangling q'' = subst (Yields (LastCopy n dangling)) e'' (
          shift-LastCopy n (length q' - 1) h.ibqi dangling q' (omega (arith, freed_there.size))
            freed_there) in
        bind-Yields P (slot_at q'' 0) _
          λ s at_s. set-LastCopy n 0 dangling q'' _ (omega (arith, there)) moved_there

-- What is freed before does not matter.
freed_twice :
    {B : Type 0} (p : Pointer) (k : List Slot → Outcome B) → (free p >>= λ x. fault) >>= k ≡ fault
freed_twice null k = refl
freed_twice dangling k = refl
freed_twice (block b) k = refl

-- The first line cannot be entered.
next_line_faults :
    (n pos : ℕ) (ins : Bool) (q : List Slot)
    → LastCopy n dangling q
    → next_line (record { iqueue = q; ibqi = 0; ibuf_pos = pos; insertmode = ins }) ≡ fault
unfolding next_line recalled free_last
next_line_faults n pos ins q l =
    let at_n : length q - 1 ≡ n = omega (arith, l.size) in
    rw (at_n, l.at_last, l.copy) (freed_twice l.last.0.ibuf _)

-- If the last element of the history has a copy of its line, since the line was visited, and the
-- line that is entered is any other than the last and the history can be moved on, then the next
-- line that is entered at the front, whatever it is, makes the program free the copy's block a
-- second time.
pub next_line-fault :
    (i pos : ℕ) (ins : Bool) (s last : Slot) (q : List Slot) (b : List ℕ) (h' : History)
    → get_elem? (s ∷ q) (length q) ≡ some last
    → last.1.ibuf ≡ block b
    → i < length q
    → next_line (history s q i pos ins) ≡ ok h'
    → (u : Slot) (pos' : ℕ) (ins' : Bool)
    → next_line
        (record { iqueue = set h'.iqueue 0 u; ibqi = 0; ibuf_pos = pos'; insertmode = ins' })
      ≡ fault
next_line-fault i pos ins s last q b h' at_last copy there done u pos' ins' =
    let n : ℕ = length q in
    let full : LastCopy n (block b) (s ∷ q) = record {
      size = refl;
      last = last;
      at_last = at_last;
      copy = copy;
    } in
    let left : LastCopy n dangling h'.iqueue =
      subst (Yields (λ x. LastCopy n dangling x.iqueue)) done
        (next_line-LastCopy n b (history s q i pos ins) there full) in
    next_line_faults n pos' ins' (set h'.iqueue 0 u)
      (set-LastCopy n 0 dangling h'.iqueue u (omega (arith, there)) left)
