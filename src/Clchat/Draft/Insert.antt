-- ===== src/Clchat/Draft/Insert.antt =====
-- Any number of characters put in by lcc_input_edit_wizard().
use smsg.Base.{
  ℕ, ◌+◌, ◌-◌, ◌≤◌, ◌≡◌, refl, sym, ap, ◌∙◌, List, [], ◌∷◌, ◌++◌, length, take, drop, length-append,
  length-drop, append_assoc, Bool, true, false, ltb, if◌then◌else◌, arith, lt→ltb, length-take_le,
  drop-append,
}
use smsg.Base.Outcome.{Outcome, ok}
use smsg.Base.Memory.{Memory, IsPlentiful}
use smsg.Clchat.Input.{Ibuf, block, enlarge, lcc_input_edit_wizard}
use smsg.Clchat.Draft.{Draft, put, buffer_of, total}
use smsg.Clchat.Draft.Room.{overwrite_behind, drop-append_less, enlarge_lem, moved_lem}

put_all :
    (before cs after z : List ℕ) (t u : ℕ)
    → t ≡ length before + length cs + length after + length z
    → u ≡ length before + length cs + length after
    → ◌≡◌ {A = Ibuf}
        (record { ibuf = block (before ++ (cs ++ (after ++ z))); ttlen = t; ulen = u })
        (buffer_of (before ++ cs) after z)
put_all before cs after z t u ht hu =
    let same : before ++ (cs ++ (after ++ z)) ≡ (before ++ cs) ++ (after ++ z) =
      sym (append_assoc before cs (after ++ z)) in
    let size : t ≡ length ((before ++ cs) ++ (after ++ z)) =
      omega (arith, ht, total (before ++ cs) after z, length-append before cs) in
    let used : u ≡ length (before ++ cs) + length after =
      omega (arith, hu, length-append before cs) in
    rw (same, size, used) refl

module _ (m : Memory) (before cs spare : List ℕ) (p : IsPlentiful m) where
  abbrev result : List ℕ → List ℕ → Outcome (Ibuf × ℕ)
  result after z = ok (buffer_of (before ++ cs) after z, length (before ++ cs))

  inserted :
      (x : ℕ) (r : List ℕ)
      → (z : List ℕ) × (lcc_input_edit_wizard m
            (buffer_of before (x ∷ r) spare)
            cs
            (length before)
            true
          ≡ result (x ∷ r) z)
  unfolding lcc_input_edit_wizard
  inserted x r =
      let n : ℕ = length before in
      let k : ℕ = length cs in
      let after = x ∷ r in
      let a : ℕ = length after in
      let (spare', roomy, fits) = enlarge_lem m before after spare (n + a + k) p (omega arith) in
      let longer : ltb (n + a + k) (n + a) ≡ false = ground arith in
      let inner : ltb n (n + a) ≡ true = lt→ltb n (n + a) (omega arith) in
      let (z, moved, left) = moved_lem before after spare' k (omega (arith, fits)) in
      let ys = after ++ spare' in
      let size : length ys ≡ a + length spare' = length-append after spare' in
      let first : length (take k ys) ≡ k = length-take_le k ys (omega (arith, fits, size)) in
      let there : k ≤ length (take k ys ++ (after ++ z)) =
        omega (arith, first, length-append (take k ys) (after ++ z)) in
      let written = overwrite_behind before cs (take k ys ++ (after ++ z)) there in
      let behind : drop k (take k ys ++ (after ++ z)) ≡ after ++ z =
        drop-append k (take k ys) (after ++ z) first in
      let pos : n + k ≡ length (before ++ cs) = sym (length-append before cs) in
      (
        z,
        rw (longer, roomy, inner, moved, written, behind, pos)
            (ap (λ b. ok (b, length (before ++ cs)))
              (put_all before cs after z (length (before ++ ys)) (n + a + k)
                (omega (arith, left, total before after spare')) (omega arith))),
      )

  appended :
      (z : List ℕ) × (lcc_input_edit_wizard m (buffer_of before [] spare) cs (length before) true
        ≡ result [] z)
  unfolding lcc_input_edit_wizard
  appended =
      let n : ℕ = length before in
      let k : ℕ = length cs in
      let (spare', roomy, fits) = enlarge_lem m before [] spare (n + 0 + k) p (omega arith) in
      let longer : ltb (n + 0 + k) (n + 0) ≡ false = ground arith in
      let at_end : ltb n (n + 0) ≡ false = ground arith in
      let written = overwrite_behind before cs spare' (omega (arith, fits)) in
      let pos : n + k ≡ length (before ++ cs) = sym (length-append before cs) in
      let z = drop k spare' in
      (
        z,
        rw (longer, roomy, at_end, written, pos)
            (ap (λ b. ok (b, length (before ++ cs)))
              (put_all before cs [] z (length (before ++ spare')) (n + 0 + k)
                (omega (arith, fits, length-append before spare', length-drop k spare'))
                (omega arith))),
      )

  over_with :
      (after spare' : List ℕ) (newlen : ℕ)
      → (if ltb (length before + length cs) (length before + length after)
          then length before + length after
          else length before + length cs)
        ≡ newlen
      → enlarge m (buffer_of before after spare) newlen ≡ ok (buffer_of before after spare')
      → newlen ≤ length before + length after + length spare'
      → (z : List ℕ) × (lcc_input_edit_wizard m
            (buffer_of before after spare)
            cs
            (length before)
            false
          ≡ result (drop (length cs) after) z)
  unfolding lcc_input_edit_wizard
  over_with after spare' newlen e roomy fits =
      let n : ℕ = length before in
      let k : ℕ = length cs in
      let a : ℕ = length after in
      let high : n + k ≤ newlen = ground arith in
      let exact : newlen ≡ n + k + (a - k) = ground arith in
      let ys = after ++ spare' in
      let written =
        overwrite_behind before cs ys (omega (arith, high, fits, length-append after spare')) in
      let behind = drop-append_less k after spare' in
      let pos : n + k ≡ length (before ++ cs) = sym (length-append before cs) in
      let z = drop (k - a) spare' in
      (
        z,
        rw (e, roomy, written, behind)
            (ap (λ b. ok (b, n + k))
                (put_all before cs (drop k after) z (length (before ++ ys)) newlen
                  (omega (
                    arith,
                    high,
                    fits,
                    total before after spare',
                    length-drop (k - a) spare',
                    length-drop k after,
                  ))
                  (omega (arith, exact, length-drop k after)))
              ∙ ap (λ i. ok (buffer_of (before ++ cs) (drop k after) z, i)) pos),
      )

  over :
      (after : List ℕ)
      → (z : List ℕ) × (lcc_input_edit_wizard m
            (buffer_of before after spare)
            cs
            (length before)
            false
          ≡ result (drop (length cs) after) z)
  over after =
      let n : ℕ = length before in
      let k : ℕ = length cs in
      let a : ℕ = length after in
      let newlen : ℕ = if ltb (n + k) (n + a) then n + a else n + k in
      let low : n + a ≤ newlen = ground arith in
      let (spare', roomy, fits) = enlarge_lem m before after spare newlen p low in
      over_with after spare' newlen refl roomy fits

-- What is put in at the cursor, in either mode.
pub lcc_input_edit_wizard_lem :
    (m : Memory) (d : Draft) (cs spare : List ℕ)
    → IsPlentiful m
    → (z : List ℕ) × (lcc_input_edit_wizard m
          (buffer_of d.before d.after spare)
          cs
          (length d.before)
          d.inserting
        ≡ ok (buffer_of (put cs d).before (put cs d).after z, length (put cs d).before))
lcc_input_edit_wizard_lem m d cs spare p = by_mode d.inserting d.after
  where
    by_mode :
        (ins : Bool) (after : List ℕ)
        → (z : List ℕ) × (lcc_input_edit_wizard m
              (buffer_of d.before after spare)
              cs
              (length d.before)
              ins
            ≡ ok (
              buffer_of (d.before ++ cs) (if ins then after else drop (length cs) after) z,
              length (d.before ++ cs),
            ))
    by_mode true [] = appended m d.before cs spare p
    by_mode true (x ∷ r) = inserted m d.before cs spare p x r
    by_mode false after = over m d.before cs spare p after
