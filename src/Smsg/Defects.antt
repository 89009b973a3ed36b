-- ===== src/Smsg/Defects.antt =====
-- What smsg.c does to destinations with a user, to nicks with characters that are not allowed, and
-- to what is read from standard input.
use smsg.Base.{
  ℕ, zero, suc, ◌+◌, ◌-◌, ◌<◌, ◌≡◌, refl, sym, ap, ◌∙◌, List, [], ◌∷◌, ◌++◌, length, drop,
  take-append, length-append, append_assoc, append-nil, Bool, true, false, not, ◌&&◌, ◌||◌, ◌==◌,
  ltb, leb, if◌then◌else◌, none, some, get_elem?, arith, Bool-cases, inl, inr, replicate,
  length-replicate, length-drop, le→leb,
}
use smsg.Base.Outcome.{ok, fault, ◌>>=◌}
use smsg.Base.Memory.{Memory, IsPlentiful, realloc, overwrite, realloc_grows}
use smsg.Base.Text.{Text, has_nul}
use smsg.Client.{string_of}
use smsg.Clchat.Input.{memmove}
use smsg.Smsg.{Shell, Settings, copy_user, set_destination, set_user, split_at_sign}
use smsg.Smsg.Run.{filter_nick, filter_from, get_stdin, read_chars, msg_max_len, shrunk}

-- The copy of a user's name is one byte too short for where its NUL goes.
copy_user_lem : (m : Memory) (user : Text) → IsPlentiful m → copy_user m user ≡ fault
unfolding copy_user overwrite
copy_user_lem m user p =
    let n : ℕ = length user in
    let b = replicate (n + 1) m.junk in
    let size : length b ≡ n + 1 = length-replicate (n + 1) m.junk in
    let from : ℕ = 0 + n in
    let first : leb from (length b) ≡ true = le→leb from (length b) (omega (arith, size)) in
    let behind : length (user ++ drop from b) < n + 1 + 1 =
      omega (arith, size, length-append user (drop from b), length-drop from b) in
    let second : leb (n + 1 + 1) (length (user ++ drop from b)) ≡ false = ground (arith, behind) in
    let whole : 0 + (n + 1) ≡ n + 1 = omega arith in
    let got : realloc m [] (n + 1) ≡ ok b =
      ap (realloc m []) (sym whole) ∙ realloc_grows m [] (n + 1) p in
    rw (got, first, second) refl

-- A text without an '@'.
abbrev pub lacks_at : Text → Bool
lacks_at [] = true
lacks_at (c ∷ t) = not (c == 64) && lacks_at t

split_at_sign_lem :
    (before behind : Text)
    → lacks_at before ≡ true
    → split_at_sign (before ++ (64 ∷ behind)) ≡ some (before, behind)
unfolding split_at_sign
split_at_sign_lem [] behind h = refl
split_at_sign_lem (c ∷ t) behind h =
    let other : (c == 64) ≡ false = ground arith in
    let later : lacks_at t ≡ true = ground arith in
    rw (split_at_sign_lem t behind later, other) refl

-- With memory plentiful, every destination of the form user@host, with no '@' in the user, makes
-- the option -d write outside of the block for the user's name.
pub set_destination_fault :
    (m : Shell) (user host : Text) (s : Settings)
    → IsPlentiful m.memory
    → lacks_at user ≡ true
    → set_destination m (user ++ (64 ∷ host)) s ≡ fault
unfolding set_destination set_user
set_destination_fault m user host s p h =
    rw (split_at_sign_lem user host h, p.all_copied host, copy_user_lem m.memory user p) refl

-- A character that a nick may not have, and a nick without any.
abbrev pub is_barred : ℕ → Bool
is_barred c = ltb c 33 || ltb 126 c

abbrev pub all_allowed : Text → Bool
all_allowed [] = true
all_allowed (c ∷ t) = let rest = all_allowed t in if is_barred c then false else rest

get_elem?-length :
    (done : Text) (c : ℕ) (rest : Text) → get_elem? (done ++ (c ∷ rest)) (length done) ≡ some c
get_elem?-length [] c rest = refl
get_elem?-length (x ∷ done) c rest = get_elem?-length done c rest

memmove_fault :
    (done : Text) (c : ℕ) (rest : Text)
    → let b = done ++ (c ∷ rest) in
      memmove b (length done) (length done + 1) (length b - length done) ≡ fault
unfolding memmove
memmove_fault done c rest =
    let n : ℕ = length done in
    let size : ℕ = length (done ++ (c ∷ rest)) in
    let outside : leb (n + 1 + (size - n)) size ≡ false =
      ground (arith, length-append done (c ∷ rest)) in
    rw (outside) refl

filter_lem :
    (done rest : Text)
    → has_nul rest ≡ false
    → filter_from (suc (length rest)) (done ++ (rest ++ (0 ∷ []))) (length done)
      ≡ (if all_allowed rest then ok (done ++ (rest ++ (0 ∷ []))) else fault)
unfolding filter_from
filter_lem done [] n = rw (get_elem?-length done 0 []) refl
filter_lem done (c ∷ rest) n =
    let nonzero : (c == 0) ≡ false = ground arith in
    let plain : has_nul rest ≡ false = ground arith in
    let later = rest ++ (0 ∷ []) in
    let fuel : ℕ = suc (length rest) in
    let here = get_elem?-length done c later in
    let next : length (done ++ (c ∷ [])) ≡ length done + 1 = length-append done (c ∷ []) in
    let again = append_assoc done (c ∷ []) later in
    let ih = filter_lem (done ++ (c ∷ [])) rest plain in
    elim (Bool-cases (is_barred c)) [
      | inl h ↦ rw (here, nonzero, h, memmove_fault done c later) refl
      | inr h ↦
          rw (here, nonzero, h)
            (ap (filter_from fuel (done ++ (c ∷ later))) (sym next)
              ∙ ap (λ b. filter_from fuel b (length (done ++ (c ∷ [])))) (sym again)
              ∙ ih
              ∙ ap (λ b. if all_allowed rest then ok b else fault) again)
    ]

-- The filter of nicks leaves a nick without a NUL as it is if all its characters are allowed, and
-- otherwise touches memory outside of the nick's block.
pub filter_nick_lem :
    (nick : Text)
    → has_nul nick ≡ false
    → filter_nick nick ≡ (if all_allowed nick then ok (nick ++ (0 ∷ [])) else fault)
unfolding filter_nick
filter_nick_lem nick n = filter_lem [] nick n

has_nul-read_chars :
    (left : ℕ) (input : List ℕ) → has_nul input ≡ false → has_nul (read_chars left input) ≡ false
unfolding read_chars
has_nul-read_chars zero input h = refl
has_nul-read_chars (suc left) [] h = refl
has_nul-read_chars (suc left) (c ∷ input) h = ground (arith, has_nul-read_chars left input)

-- The block that the message is in has no NUL.
unterminated :
    (m : Memory) (read : List ℕ)
    → IsPlentiful m
    → has_nul read ≡ false
    → realloc m (read ++ (0 ∷ [])) (length read) ≡ ok read
unfolding realloc
unterminated m read p h =
    let none_left : length read - length (read ++ (0 ∷ [])) ≡ 0 =
      omega (arith, length-append read (0 ∷ [])) in
    rw (p.all_granted (length read), take-append (length read) read (0 ∷ []) refl, none_left)
      (ap ok (append-nil read))

no_string : (b : List ℕ) → has_nul b ≡ false → string_of (some b) ≡ fault
unfolding string_of
no_string b h = rw h refl

read_back :
    (m : Memory) (read : List ℕ)
    → IsPlentiful m
    → has_nul read ≡ false
    → string_of
        (if length read == 0 then none else shrunk (realloc m (read ++ (0 ∷ [])) (length read)))
      ≡ fault
unfolding string_of
read_back m [] p h = refl
read_back m (c ∷ t) p h =
    let some_read : (length (c ∷ t) == 0) ≡ false = ground arith in
    rw (some_read)
      (ap (λ o. string_of (shrunk o)) (unterminated m (c ∷ t) p h) ∙ no_string (c ∷ t) h)

-- With memory plentiful, a message without a NUL that get_stdin() has read has no NUL in its block,
-- or no block if it is empty, so that taking its length as sendmessage() does reads outside of the
-- block.
pub get_stdin_lem :
    (m : Memory) (input : List ℕ)
    → IsPlentiful m
    → has_nul input ≡ false
    → (get_stdin m input >>= string_of) ≡ fault
unfolding get_stdin
get_stdin_lem m input p h = rw (p.all_granted msg_max_len) (
    read_back m (read_chars (msg_max_len - 1) input) p
      (has_nul-read_chars (msg_max_len - 1) input h))
