-- ===== src/Clchat/Editing/Changes.antt =====
-- What taking a character out and putting one in do to the line.
use smsg.Base.{
  ℕ, suc, ◌+◌, ◌-◌, ◌≡◌, refl, sym, ap, ◌∙◌, List, [], ◌∷◌, ◌++◌, length, length-append, drop,
  append_assoc, Bool, true, false, ltb, arith, take-append_drop, lt→ltb,
}
use smsg.Base.Outcome.{ok}
use smsg.Base.Memory.{Memory}
use smsg.Clchat.Input.{
  Ibuf, close_gap, delete_char, backspace, type_char, shown_char, lcc_input_edit_wizard,
}
use smsg.Clchat.Draft.{glyph, shown_char-glyph, put, but_last, buffer_of, line_of}
use smsg.Clchat.Draft.Changes.{close_gap_lem, put_inserted, put_last, put_over}
use smsg.Clchat.Editing.{rebuffer, one_last, length-but_last}

-- The three changes of a text, with room for a character.
pub delete_lem :
    (before after : List ℕ) (ins : Bool) (s : ℕ) (more : List ℕ)
    → (spare : List ℕ) × (delete_char (record {
      buffer = buffer_of before after (s ∷ more);
      ibuf_pos = length before;
      insertmode = ins;
    })
        ≡ ok (record {
          buffer = buffer_of before (drop 1 after) spare;
          ibuf_pos = length before;
          insertmode = ins;
        }))
unfolding delete_char
delete_lem before [] ins s more =
    let last : ltb (length before) (length before + 0) ≡ false = ground arith in
    (s ∷ more, rw last refl)
delete_lem before (a ∷ after) ins s more =
    let (spare, closed) = close_gap_lem before after more a s in
    let inner : ltb (length before) (length before + suc (length after)) ≡ true =
      lt→ltb (length before) (length before + suc (length after)) (omega arith) in
    (spare, rw (inner, closed) refl)

backspace_at :
    (bs bs' : Ibuf) (n : ℕ) (ins : Bool)
    → close_gap bs n ≡ ok bs'
    → backspace (record { buffer = bs; ibuf_pos = suc n; insertmode = ins })
      ≡ ok (record { buffer = bs'; ibuf_pos = n; insertmode = ins })
unfolding backspace
backspace_at bs bs' n ins closed =
    let some_text : ltb 0 (suc n) ≡ true = ground arith in
    let back : suc n - 1 ≡ n = omega arith in rw (some_text, back, closed) refl

pub backspace_lem :
    (before after : List ℕ) (ins : Bool) (s : ℕ) (more : List ℕ)
    → (spare : List ℕ) × (backspace (record {
      buffer = buffer_of before after (s ∷ more);
      ibuf_pos = length before;
      insertmode = ins;
    })
        ≡ ok (record {
          buffer = buffer_of (but_last before) after spare;
          ibuf_pos = length (but_last before);
          insertmode = ins;
        }))
unfolding backspace
backspace_lem [] after ins s more = (s ∷ more, refl)
backspace_lem (x ∷ xs) after ins s more =
    let init = but_last (x ∷ xs) in
    let (a, last) = one_last x xs in
    let (spare, closed) = close_gap_lem init after more a s in
    let text : (x ∷ xs) ++ after ≡ init ++ (a ∷ after) =
      ap (λ t. t ++ after)
        (sym (take-append_drop (length (x ∷ xs) - 1) (x ∷ xs)) ∙ ap (◌++◌ init) last)
      ∙ append_assoc init (a ∷ []) after in
    let short : length xs ≡ length init = omega (arith, length-but_last (x ∷ xs)) in
    let whole : close_gap (buffer_of (x ∷ xs) after (s ∷ more)) (length xs)
        ≡ ok (buffer_of init after spare) =
      ap (λ t. close_gap t (length xs)) (rebuffer (x ∷ xs) after init (a ∷ after) (s ∷ more) text)
      ∙ ap (close_gap (buffer_of init (a ∷ after) (s ∷ more))) short
      ∙ closed in
    (
      spare,
      backspace_at (buffer_of (x ∷ xs) after (s ∷ more)) (buffer_of init after spare) (length xs)
            ins whole
          ∙ ap
              (λ k.
                ok (record { buffer = buffer_of init after spare; ibuf_pos = k; insertmode = ins }))
              short,
    )

typed :
    (m : Memory) (before after after' spare spare' : List ℕ) (ins : Bool) (ch : ℕ)
    → lcc_input_edit_wizard m
        (buffer_of before after spare)
        (shown_char ch ∷ [])
        (length before)
        ins
      ≡ ok (buffer_of (before ++ (shown_char ch ∷ [])) after' spare', length before + 1)
    → type_char m
        (record {
          buffer = buffer_of before after spare;
          ibuf_pos = length before;
          insertmode = ins;
        })
        ch
      ≡ ok (
          line_of
            (record { before = before ++ (shown_char ch ∷ []); after = after'; inserting = ins })
            spare')
unfolding type_char
typed m before after after' spare spare' ins ch e =
    let moved : length before + 1 ≡ length (before ++ (shown_char ch ∷ [])) =
      omega (arith, length-append before (shown_char ch ∷ [])) in
    rw (e, moved) refl

shown_lem :
    (m : Memory) (before after : List ℕ) (ins : Bool) (s : ℕ) (more : List ℕ) (ch : ℕ)
    → (spare : List ℕ) × (type_char m
          (record {
            buffer = buffer_of before after (s ∷ more);
            ibuf_pos = length before;
            insertmode = ins;
          })
          ch
        ≡ ok (
            line_of
              (put
                (shown_char ch ∷ [])
                (record { before = before; after = after; inserting = ins }))
              spare))
shown_lem m before [] true s more ch = (
  more,
  typed m before [] [] (s ∷ more) more true ch (put_last m before more (shown_char ch) s true),
)
shown_lem m before [] false s more ch = (
  more,
  typed m before [] [] (s ∷ more) more false ch (put_last m before more (shown_char ch) s false),
)
shown_lem m before (x ∷ r) true s more ch = (
  more,
  typed m before (x ∷ r) (x ∷ r) (s ∷ more) more true ch
      (put_inserted m before more (shown_char ch) s x r),
)
shown_lem m before (x ∷ r) false s more ch = (
  s ∷ more,
  typed m before (x ∷ r) r (s ∷ more) (s ∷ more) false ch
      (put_over m before more (shown_char ch) s x r),
)

pub type_lem :
    (m : Memory) (before after : List ℕ) (ins : Bool) (s : ℕ) (more : List ℕ) (ch : ℕ)
    → (spare : List ℕ) × (type_char m
          (record {
            buffer = buffer_of before after (s ∷ more);
            ibuf_pos = length before;
            insertmode = ins;
          })
          ch
        ≡ ok (
            line_of
              (put (glyph ch ∷ []) (record { before = before; after = after; inserting = ins }))
              spare))
type_lem m before after ins s more ch =
    rw⁻¹ (shown_char-glyph ch) (shown_lem m before after ins s more ch)
