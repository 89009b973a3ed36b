-- ===== src/Clchat/Mailbox/News.antt =====
-- What is said of new mail.
use smsg.Base.{
  ℕ, zero, suc, ◌+◌, ◌-◌, ◌<◌, ◌≡◌, refl, sym, ap, List, [], ◌∷◌, ◌++◌, append_assoc, length, drop,
  Bool, true, false, ◌==◌, ltb, Option, none, some, on_option, arith, Bool-cases, inl, inr,
  Option-cases,
}
use smsg.Base.Text.{Text, literal}
use smsg.Clchat.Output.{lcc_asay}
use smsg.Clchat.Mailbox.{
  grown, behind, up_to, from_line, subject_line, count_mail, lcc_mboxchange, look_into,
}

-- A message: what is behind "From " in its first line, and its other lines.
pub record Mail : Type 0 where
  pub sender : Text
  pub lines : List Text

-- No other line begins with "From ".
abbrev pub has_from : List Text → Bool
has_from [] = false
has_from (l ∷ ls) = let rest = has_from ls in on_option (behind (literal "From ") l) rest λ t. true

abbrev pub AreMails : List Mail → Type 0
AreMails [] = Unit
AreMails (x ∷ xs) = (has_from x.lines ≡ false) × AreMails xs

abbrev pub file_of : List Mail → List Text
file_of [] = []
file_of (x ∷ xs) = (literal "From " ++ x.sender) ∷ (x.lines ++ file_of xs)

-- The subjects among the lines.
unfoldable pub subjects : List Text → Text
subjects [] = []
subjects (l ∷ ls) =
    on_option (behind (literal "Subject: ") l) []
      (λ t. lcc_asay 0 (literal "<" ++ (up_to (10 ∷ 13 ∷ []) t ++ literal ">")))
    ++ subjects ls

-- Each message's sender, up to a blank or the line's end, and its subject.
unfoldable pub announced : List Mail → Text
announced [] = []
announced (x ∷ xs) =
    lcc_asay 0 (literal " [" ++ (up_to (32 ∷ 9 ∷ 10 ∷ 13 ∷ []) x.sender ++ literal "]"))
    ++ (subjects x.lines ++ announced xs)

-- A line that does not begin a message begins none of those behind it, and begins none itself.
first_has :
    (l : Text) (ls : List Text)
    → has_from (l ∷ ls) ≡ false
    → (behind (literal "From ") l ≡ none) × (has_from ls ≡ false)
first_has l ls h = elim (Option-cases (behind (literal "From ") l)) [
  | inl e ↦ (e, rw e at h)
  | inr t ↦ (let bad : true ≡ false = (rw t.1 at h) in cc)
]

nothing_said : (o : Option Text) → on_option {B = Text} o [] (λ t. []) ≡ []
nothing_said none = refl
nothing_said (some t) = refl

-- The lines of a message that is known, behind the first.
old_lines :
    (k n : ℕ) (lines rest : List Text)
    → has_from lines ≡ false
    → ltb k n ≡ false
    → count_mail grown (some k) n (lines ++ rest) ≡ count_mail grown (some k) n rest
unfolding count_mail from_line subject_line
old_lines k n [] rest h l = refl
old_lines k n (x ∷ lines) rest h l =
    let (e, h') = first_has x lines h in
    rw (e, l, old_lines k n lines rest h' l, nothing_said (behind (literal "Subject: ") x)) refl

new_lines :
    (k n : ℕ) (lines rest : List Text)
    → has_from lines ≡ false
    → ltb k n ≡ true
    → count_mail grown (some k) n (lines ++ rest) ≡ (
      (count_mail grown (some k) n rest).0,
      subjects lines ++ (count_mail grown (some k) n rest).1,
    )
unfolding count_mail from_line subject_line subjects
new_lines k n [] rest h l = refl
new_lines k n (x ∷ lines) rest h l =
    let (e, h') = first_has x lines h in
    rw (e, l, new_lines k n lines rest h' l)
      (ap (λ t. ((count_mail grown (some k) n rest).0, t))
        (sym (append_assoc _ (subjects lines) _)))

from_known :
    (k n : ℕ) (sender : Text)
    → ltb k (suc n) ≡ false
    → from_line grown (some k) n (literal "From " ++ sender) ≡ (suc n, [])
unfolding from_line behind
from_known k n sender l = rw l refl

from_new :
    (k n : ℕ) (sender : Text)
    → ltb k (suc n) ≡ true
    → from_line grown (some k) n (literal "From " ++ sender)
      ≡ (suc n, lcc_asay 0 (literal " [" ++ (up_to (32 ∷ 9 ∷ 10 ∷ 13 ∷ []) sender ++ literal "]")))
unfolding from_line behind
from_new k n sender l = rw l refl

drop-nil : (k : ℕ) → drop {A = Mail} k [] ≡ []
drop-nil zero = refl
drop-nil (suc k) = refl

new_mail :
    (k n : ℕ) (ms : List Mail)
    → AreMails ms
    → count_mail grown (some k) n (file_of ms) ≡ (n + length ms, announced (drop (k - n) ms))
unfolding count_mail announced
new_mail k n [] h =
    let same : n + 0 ≡ n = omega arith in
    rw same (ap (λ xs. (n, announced xs)) (sym (drop-nil (k - n))))
new_mail k n (x ∷ ms) h =
    let one : suc n + length ms ≡ n + suc (length ms) = omega arith in
    elim (Bool-cases (ltb k (suc n))) [
      | inl l ↦
          let all : k - n ≡ 0 = ground arith in
          let all' : k - suc n ≡ 0 = ground arith in
          rw
            (
              l,
              new_lines k (suc n) x.lines (file_of ms) h.0 l,
              new_mail k (suc n) ms h.1,
              all,
              all',
              one,
            )
            refl
      | inr l ↦
          let fewer : k - n ≡ suc (k - suc n) = ground arith in
          rw
            (
              l,
              old_lines k (suc n) x.lines (file_of ms) h.0 l,
              new_mail k (suc n) ms h.1,
              fewer,
              one,
            )
            refl
    ]

-- When a mailbox that was looked at before, with a known number of messages, has grown and can be
-- read, and "From " begins only each message's first line, then lcc_mboxchange() says that there is
-- more mail, with sender and subjects of each message beyond those known and of no other, stores
-- the number of messages and the size, and reports a change.
pub lcc_mboxchange_lem :
    (known last size : ℕ) (ms : List Mail)
    → AreMails ms
    → last < size
    → lcc_mboxchange
        (record { firstrun = false; last_size = last; mailcount = some known })
        (some size)
        (some (file_of ms))
      ≡ (
        record { firstrun = false; last_size = size; mailcount = some (length ms) },
        lcc_asay 1 (literal "Yay! More mail!")
            ++ (announced (drop known ms) ++ lcc_asay 0 (literal "\n")),
        some true,
      )
unfolding lcc_mboxchange look_into
lcc_mboxchange_lem known last size ms h l =
    let other : (size == last) ≡ false = ground arith in
    let more : ltb last size ≡ true = ground arith in
    let counted : 0 + length ms ≡ length ms = omega arith in
    let known_there : known - 0 ≡ known = omega arith in
    rw (other, more, new_mail known 0 ms h, counted, known_there) refl
