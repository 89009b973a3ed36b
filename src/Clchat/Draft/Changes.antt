-- ===== src/Clchat/Draft/Changes.antt =====
-- A character taken out of the buffer, and one put in, as close_gap() and
-- lcc_input_edit_wizard() do it.
use smsg.Base.{
  ℕ, suc, ◌+◌, ◌-◌, ◌≡◌, refl, sym, ap, ◌∙◌, List, [], ◌∷◌, ◌++◌, length, length-append, take, drop,
  append_assoc, Bool, true, false, ◌&&◌, ltb, if◌then◌else◌, arith, le→leb, take-append,
  drop-append, lt→ltb, ltb-le,
}
use smsg.Base.Outcome.{ok}
use smsg.Base.Memory.{Memory, overwrite, overwrite-append}
use smsg.Clchat.Input.{Ibuf, block, memmove, close_gap, lcc_input_edit_wizard, enlarge}
use smsg.Clchat.Draft.{buffer_of, total}

moved :
    (b p q r : List ℕ) (to_offset from_offset n : ℕ)
    → b ≡ p ++ (q ++ r)
    → length p ≡ from_offset
    → length q ≡ n
    → memmove b to_offset from_offset n ≡ overwrite b to_offset q
unfolding memmove
moved b p q r to_offset from_offset n e hp hq =
    let rest : drop from_offset b ≡ q ++ r =
      ap (drop from_offset) e ∙ drop-append from_offset p (q ++ r) hp in
    let bytes : take n (drop from_offset b) ≡ q = ap (take n) rest ∙ take-append n q r hq in
    rw
      (le→leb (from_offset + n) (length b) (omega (arith, ap length e, total p q r, hp, hq)), bytes)
      refl

overwritten :
    (b xs old new rest : List ℕ) (i : ℕ)
    → b ≡ xs ++ (old ++ rest)
    → length xs ≡ i
    → length old ≡ length new
    → overwrite b i new ≡ ok (xs ++ (new ++ rest))
overwritten b xs old new rest i e hx h =
    ap (λ t. overwrite t i new) e
    ∙ ap (λ k. overwrite (xs ++ (old ++ rest)) k new) (sym hx)
    ∙ overwrite-append xs old new rest h

gap_closed :
    (before after more : List ℕ) (a s : ℕ)
    → memmove
        (before ++ (a ∷ (after ++ (s ∷ more))))
        (length before)
        (length before + 1)
        (suc (length after))
      ≡ ok (before ++ (after ++ (s ∷ s ∷ more)))
gap_closed before after more a s =
    let b = before ++ (a ∷ (after ++ (s ∷ more))) in
    let tail : after ++ (s ∷ more) ≡ (after ++ (s ∷ [])) ++ more =
      sym (append_assoc after (s ∷ []) more) in
    moved b (before ++ (a ∷ [])) (after ++ (s ∷ [])) more (length before) (length before + 1)
      (suc (length after))
      (ap (λ t. before ++ (a ∷ t)) tail
        ∙ sym (append_assoc before (a ∷ []) ((after ++ (s ∷ [])) ++ more)))
      (omega (arith, length-append before (a ∷ []))) (omega (arith, length-append after (s ∷ [])))
    ∙ overwritten b before (a ∷ after) (after ++ (s ∷ [])) (s ∷ more) (length before) refl refl
        (omega (arith, length-append after (s ∷ [])))
    ∙ ap (λ t. ok (before ++ t)) (append_assoc after (s ∷ []) (s ∷ more))

-- A character is taken out.
pub close_gap_lem :
    (before after more : List ℕ) (a s : ℕ)
    → (spare : List ℕ) × (close_gap (buffer_of before (a ∷ after) (s ∷ more)) (length before)
        ≡ ok (buffer_of before after spare))
unfolding close_gap
close_gap_lem before [] more a s =
    let last : ltb (length before) (length before + 1 - 1) ≡ false = ground arith in
    let fewer : length before + 1 - 1 ≡ length before + 0 = omega arith in
    (a ∷ s ∷ more, rw (last, fewer) refl)
close_gap_lem before (x ∷ r) more a s =
    let n : ℕ = length before in
    let inner : ltb n (n + suc (suc (length r)) - 1) ≡ true =
      lt→ltb n (n + suc (suc (length r)) - 1) (omega arith) in
    let fewer : n + suc (suc (length r)) - 1 ≡ n + suc (length r) = omega arith in
    let behind : n + suc (suc (length r)) - n ≡ suc (suc (length r)) = omega arith in
    let size : length (before ++ (a ∷ x ∷ (r ++ (s ∷ more))))
        ≡ length (before ++ (x ∷ (r ++ (s ∷ s ∷ more)))) =
      omega (arith, total before (a ∷ x ∷ r) (s ∷ more), total before (x ∷ r) (s ∷ s ∷ more)) in
    (s ∷ s ∷ more, rw (inner, behind, gap_closed before (x ∷ r) more a s, fewer, size) refl)

put_done :
    (before after spare : List ℕ) (c t u : ℕ)
    → t ≡ length before + 1 + length after + length spare
    → u ≡ length before + 1 + length after
    → ◌≡◌ {A = Ibuf}
        (record { ibuf = block (before ++ (c ∷ (after ++ spare))); ttlen = t; ulen = u })
        (buffer_of (before ++ (c ∷ [])) after spare)
put_done before after spare c t u ht hu =
    let same : before ++ (c ∷ (after ++ spare)) ≡ (before ++ (c ∷ [])) ++ (after ++ spare) =
      sym (append_assoc before (c ∷ []) (after ++ spare)) in
    let size : t ≡ length ((before ++ (c ∷ [])) ++ (after ++ spare)) =
      omega (arith, ht, total (before ++ (c ∷ [])) after spare, length-append before (c ∷ [])) in
    let used : u ≡ length (before ++ (c ∷ [])) + length after =
      omega (arith, hu, length-append before (c ∷ [])) in
    rw (same, size, used) refl

-- A character is put in.
module _ (m : Memory) (before more : List ℕ) (c s : ℕ) where
  shifted :
      (x : ℕ) (r : List ℕ)
      → memmove
          (before ++ ((x ∷ r) ++ (s ∷ more)))
          (length before + 1)
          (length before)
          (suc (length r))
        ≡ ok ((before ++ (x ∷ [])) ++ ((x ∷ r) ++ more))
  shifted x r =
      let b = before ++ ((x ∷ r) ++ (s ∷ more)) in
      moved b before (x ∷ r) (s ∷ more) (length before + 1) (length before) (suc (length r)) refl
        refl refl
      ∙ overwritten b (before ++ (x ∷ [])) (r ++ (s ∷ [])) (x ∷ r) more (length before + 1)
          (ap (λ t. before ++ (x ∷ t)) (sym (append_assoc r (s ∷ []) more))
            ∙ sym (append_assoc before (x ∷ []) ((r ++ (s ∷ [])) ++ more)))
          (omega (arith, length-append before (x ∷ []))) (omega (arith, length-append r (s ∷ [])))

  placed :
      (x : ℕ) (rest : List ℕ)
      → overwrite (before ++ (x ∷ rest)) (length before) (c ∷ []) ≡ ok (before ++ (c ∷ rest))
  placed x rest =
      overwritten (before ++ (x ∷ rest)) before (x ∷ []) (c ∷ []) rest (length before) refl refl
        refl

  pub put_inserted :
      (x : ℕ) (r : List ℕ)
      → lcc_input_edit_wizard m (buffer_of before (x ∷ r) (s ∷ more)) (c ∷ []) (length before) true
        ≡ ok (buffer_of (before ++ (c ∷ [])) (x ∷ r) more, length before + 1)
  unfolding lcc_input_edit_wizard enlarge
  put_inserted x r =
      let n : ℕ = length before in
      let u : ℕ = n + suc (length r) in
      let t : ℕ = length (before ++ ((x ∷ r) ++ (s ∷ more))) in
      let size : t ≡ n + suc (length r) + suc (length more) = total before (x ∷ r) (s ∷ more) in
      let longer : ltb (u + 1) u ≡ false = ground arith in
      let fits : ltb t (u + 1) ≡ false = ltb-le t (u + 1) (omega (arith, size)) in
      let inner : ltb n u ≡ true = lt→ltb n u (omega arith) in
      let behind : u - n ≡ suc (length r) = omega arith in
      let regroup : (before ++ (x ∷ [])) ++ ((x ∷ r) ++ more) ≡ before ++ (x ∷ ((x ∷ r) ++ more)) =
        append_assoc before (x ∷ []) ((x ∷ r) ++ more) in
      rw (longer, fits, inner, behind, shifted x r, regroup, placed x ((x ∷ r) ++ more))
        (ap (λ b. ok (b, n + 1))
          (put_done before (x ∷ r) more c t (u + 1) (omega (arith, size)) (omega arith)))

  pub put_last :
      (inserting : Bool)
      → lcc_input_edit_wizard m (buffer_of before [] (s ∷ more)) (c ∷ []) (length before) inserting
        ≡ ok (buffer_of (before ++ (c ∷ [])) [] more, length before + 1)
  unfolding lcc_input_edit_wizard enlarge
  put_last inserting =
      let n : ℕ = length before in
      let t : ℕ = length (before ++ (s ∷ more)) in
      let size : t ≡ n + suc (length more) = length-append before (s ∷ more) in
      let none_after : n + 0 ≡ n = omega arith in
      let same : (if inserting then n + 1 else n + 1) ≡ n + 1 = ground arith in
      let longer : ltb (n + 1) n ≡ false = ground arith in
      let fits : ltb t (n + 1) ≡ false = ltb-le t (n + 1) (omega (arith, size)) in
      let at_end : (inserting && ltb n n) ≡ false = ground arith in
      rw (none_after, same, longer, fits, at_end, placed s more)
        (ap (λ b. ok (b, n + 1))
          (put_done before [] more c t (n + 1) (omega (arith, size)) (omega arith)))

  pub put_over :
      (x : ℕ) (r : List ℕ)
      → lcc_input_edit_wizard m (buffer_of before (x ∷ r) (s ∷ more)) (c ∷ []) (length before) false
        ≡ ok (buffer_of (before ++ (c ∷ [])) r (s ∷ more), length before + 1)
  unfolding lcc_input_edit_wizard enlarge
  put_over x r =
      let n : ℕ = length before in
      let u : ℕ = n + suc (length r) in
      let t : ℕ = length (before ++ ((x ∷ r) ++ (s ∷ more))) in
      let size : t ≡ n + suc (length r) + suc (length more) = total before (x ∷ r) (s ∷ more) in
      let same : (if ltb (n + 1) u then u else n + 1) ≡ u = ground arith in
      let fits : ltb t u ≡ false = ltb-le t u (omega (arith, size)) in
      rw (same, fits, placed x (r ++ (s ∷ more)))
        (ap (λ b. ok (b, n + 1))
          (put_done before r (s ∷ more) c t u (omega (arith, size)) (omega arith)))
