-- ===== src/Clchat/Draft/Room.antt =====
-- Room for characters that are put into a buffer: it is enlarged, and what is behind them moves.
use smsg.Base.{
  ℕ, zero, suc, ◌+◌, ◌-◌, ◌≤◌, ◌≡◌, refl, sym, ap, ◌∙◌, subst, List, [], ◌∷◌, ◌++◌, length, take,
  drop, replicate, length-append, length-drop, length-replicate, append_assoc, true, false, ltb,
  leb, arith, Bool-cases, inl, inr, le→leb, ltb→lt, take-append, take-append_drop, length-take_le,
  drop-append, drop-drop,
}
use smsg.Base.Outcome.{Outcome, ok}
use smsg.Base.Memory.{Memory, IsPlentiful, realloc, overwrite, realloc_grows}
use smsg.Clchat.Input.{Ibuf, memmove, enlarge, pointer_of}
use smsg.Clchat.Draft.{buffer_of, total, buffer_grown}

-- Writing behind a text.
pub overwrite_behind :
    (xs cs ys : List ℕ)
    → length cs ≤ length ys
    → overwrite (xs ++ ys) (length xs) cs ≡ ok (xs ++ (cs ++ drop (length cs) ys))
unfolding overwrite
overwrite_behind xs cs ys h =
    let fits : leb (length xs + length cs) (length (xs ++ ys)) ≡ true =
      le→leb (length xs + length cs) (length (xs ++ ys)) (omega (arith, length-append xs ys)) in
    rw
      (
        fits,
        take-append (length xs) xs ys refl,
        drop-drop (length xs) (length cs) (xs ++ ys),
        drop-append (length xs) xs ys refl,
      )
      refl

pub drop-append_less :
    (k : ℕ) (xs ys : List ℕ) → drop k (xs ++ ys) ≡ drop k xs ++ drop (k - length xs) ys
drop-append_less zero xs ys = let none_left : 0 - length xs ≡ 0 = omega arith in rw none_left refl
drop-append_less (suc k) [] ys = let plain : suc k - 0 ≡ suc k = omega arith in rw plain refl
drop-append_less (suc k) (x ∷ xs) ys =
    let less : suc k - suc (length xs) ≡ k - length xs = omega arith in
    rw less (drop-append_less k xs ys)

ltb-le_false : (a b : ℕ) → ltb a b ≡ false → b ≤ a
ltb-le_false a b h = ground arith

-- There is room for the new length, and the text is as it was.
pub enlarge_lem :
    (m : Memory) (before after spare : List ℕ) (n : ℕ)
    → IsPlentiful m
    → length before + length after ≤ n
    → (spare' : List ℕ) × (enlarge m (buffer_of before after spare) n
        ≡ ok (buffer_of before after spare'))
      × (n ≤ length before + length after + length spare')
unfolding enlarge
enlarge_lem m before after spare n p h =
    let b = before ++ (after ++ spare) in
    let size = total before after spare in
    elim (Bool-cases (ltb (length b) n)) [
      | inl short ↦
          let e : ℕ = n - length b in
          let longer : n ≡ length b + e = omega (arith, ltb→lt (length b) n short) in
          let more = replicate e m.junk in
          let of_length = λ (k : ℕ).
            ◌≡◌ {A = Outcome Ibuf}
              (ok (record {
                ibuf = pointer_of (realloc m b k);
                ttlen = k;
                ulen = length before + length after;
              }))
              (ok (buffer_of before after (spare ++ more))) in
          (
            spare ++ more,
            rw short (
                subst of_length (sym longer) (
                  rw (realloc_grows m b e p)
                    (ap ok (buffer_grown before after spare more e (length-replicate e m.junk))))),
            omega (arith, size, longer, length-append spare more, length-replicate e m.junk),
          )
      | inr long ↦ (spare, rw long refl, omega (arith, size, ltb-le_false (length b) n long))
    ]

-- The text from the cursor on is moved to behind the place for `cs`.
pub moved_lem :
    (before after spare : List ℕ) (k : ℕ)
    → k ≤ length spare
    → (z : List ℕ) × (memmove
          (before ++ (after ++ spare))
          (length before + k)
          (length before)
          (length before + length after - length before)
        ≡ ok (before ++ (take k (after ++ spare) ++ (after ++ z))))
      × (length z + k ≡ length spare)
unfolding memmove
moved_lem before after spare k h =
    let n : ℕ = length before in
    let ys = after ++ spare in
    let xs = before ++ take k ys in
    let size : length ys ≡ length after + length spare = length-append after spare in
    let first : length (take k ys) ≡ k = length-take_le k ys (omega (arith, h, size)) in
    let inside : leb (n + (n + length after - n)) (length (before ++ ys)) ≡ true =
      le→leb (n + (n + length after - n)) (length (before ++ ys))
        (omega (arith, size, length-append before ys)) in
    let some_moved : n + length after - n ≡ length after = omega arith in
    let place : length xs ≡ n + k = omega (arith, first, length-append before (take k ys)) in
    let split : before ++ ys ≡ xs ++ drop k ys =
      ap (◌++◌ before) (sym (take-append_drop k ys))
      ∙ sym (append_assoc before (take k ys) (drop k ys)) in
    let fits : length after ≤ length (drop k ys) = omega (arith, h, size, length-drop k ys) in
    let z = drop (length after) (drop k ys) in
    let what : take (n + length after - n) (drop n (before ++ ys)) ≡ after =
      rw (some_moved, drop-append n before ys refl) (take-append (length after) after spare refl) in
    let written : overwrite (before ++ ys) (n + k) after ≡ ok (xs ++ (after ++ z)) =
      ap (λ b. overwrite b (n + k) after) split
      ∙ ap (λ i. overwrite (xs ++ drop k ys) i after) (sym place)
      ∙ overwrite_behind xs after (drop k ys) fits in
    (
      z,
      rw (inside, what) (written ∙ ap ok (append_assoc before (take k ys) (after ++ z))),
      omega (arith, h, size, length-drop k ys, length-drop (length after) (drop k ys)),
    )
