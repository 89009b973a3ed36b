-- ===== src/Clchat/Words.antt =====
-- The words of a command line.
use smsg.Base.{
  ℕ, zero, suc, ◌<◌, ◌≡◌, refl, sym, ap, subst, List, [], ◌∷◌, ◌++◌, length, length-append, Bool,
  true, false, none, some, arith, Bool-cases, inl, inr,
}
use smsg.Base.Text.{Text}
use smsg.Clchat.Token.{
  is_in, skip_delims, cut, tokens, lcc_token_delim, lcc_strsepx, lcc_my_strsep,
  lcc_skip_to_token_start,
}

abbrev pub is_delim : ℕ → Bool
is_delim c = is_in lcc_token_delim c

-- No character of a text is a delimiter, and each is one.
pub data IsWord : Text → Type 0 where
  word_end : IsWord []
  word_char : {c : ℕ} {t : Text} → is_in lcc_token_delim c ≡ false → IsWord t → IsWord (c ∷ t)

pub data IsGap : Text → Type 0 where
  gap_end : IsGap []
  gap_char : {t : Text} (c : ℕ) → is_in lcc_token_delim c ≡ true → IsGap t → IsGap (c ∷ t)

-- The words of a line, which delimiters separate. Behind delimiters that end the line, and in a
-- line of delimiters, there is one more, an empty one.
pub data HasWords : Text → List Text → Type 0 where
  blank : {gap : Text} → IsGap gap → HasWords gap ([] ∷ [])
  last_word :
      {gap w : Text} {c : ℕ} → IsGap gap → IsWord (c ∷ w) → HasWords (gap ++ (c ∷ w)) ((c ∷ w) ∷ [])
  next_word :
      {gap w t : Text} {c : ℕ} {ws : List Text} (d : ℕ)
      → IsGap gap
      → IsWord (c ∷ w)
      → is_in lcc_token_delim d ≡ true
      → HasWords t ws
      → HasWords (gap ++ ((c ∷ w) ++ (d ∷ t))) ((c ∷ w) ∷ ws)

-- Every line has its words.
after_delim :
    (c : ℕ) (t : Text) (ws : List Text)
    → is_in lcc_token_delim c ≡ true
    → HasWords t ws
    → HasWords (c ∷ t) ws
after_delim c _ _ h (blank g) = blank (gap_char c h g)
after_delim c _ _ h (last_word g w) = last_word (gap_char c h g) w
after_delim c _ _ h (next_word x g w d r) = next_word x (gap_char c h g) w d r

after_char :
    (c : ℕ) (t : Text) (ws : List Text)
    → is_in lcc_token_delim c ≡ false
    → HasWords t ws
    → (ws' : List Text) × HasWords (c ∷ t) ws'
after_char c _ _ h (blank gap_end) = (_, last_word gap_end (word_char h word_end))
after_char c _ _ h (blank (gap_char d e g)) =
    (_, next_word d gap_end (word_char h word_end) e (blank g))
after_char c _ _ h (last_word gap_end w) = (_, last_word gap_end (word_char h w))
after_char c _ _ h (last_word (gap_char d e g) w) =
    (_, next_word d gap_end (word_char h word_end) e (last_word g w))
after_char c _ _ h (next_word x gap_end w e r) = (_, next_word x gap_end (word_char h w) e r)
after_char c _ _ h (next_word x (gap_char d e g) w f r) =
    (_, next_word d gap_end (word_char h word_end) e (next_word x g w f r))

words_of : (t : Text) → (ws : List Text) × HasWords t ws
words_of [] = (_, blank gap_end)
words_of (c ∷ t) =
    let (ws, has) = words_of t in
    elim (Bool-cases (is_delim c)) [
      | inl h ↦ (ws, after_delim c t ws h has)
      | inr h ↦ after_char c t ws h has
    ]

-- Skipping and cutting.
skip_gap :
    (gap t : Text)
    → IsGap gap
    → skip_delims lcc_token_delim (gap ++ t) ≡ skip_delims lcc_token_delim t
unfolding skip_delims
skip_gap [] t g = refl
skip_gap (c ∷ gap) t (gap_char _ h g) = rw h (skip_gap gap t g)

skip_all : (gap : Text) → IsGap gap → skip_delims lcc_token_delim gap ≡ []
unfolding skip_delims
skip_all [] g = refl
skip_all (c ∷ gap) (gap_char _ h g) = rw h (skip_all gap g)

skip_word : (c : ℕ) (w : Text) → IsWord (c ∷ w) → skip_delims lcc_token_delim (c ∷ w) ≡ c ∷ w
unfolding skip_delims
skip_word c w (word_char h k) = rw h refl

skip_none :
    (c : ℕ) (w t : Text)
    → IsWord (c ∷ w)
    → skip_delims lcc_token_delim ((c ∷ w) ++ t) ≡ (c ∷ w) ++ t
unfolding skip_delims
skip_none c w t (word_char h k) = rw h refl

pub cut_word :
    (w rest : Text) (d : ℕ)
    → IsWord w
    → is_in lcc_token_delim d ≡ true
    → cut is_delim (w ++ (d ∷ rest)) ≡ (w, some rest)
unfolding cut
cut_word [] rest d w h = rw h refl
cut_word (c ∷ w) rest d (word_char k w') h = rw (k, cut_word w rest d w' h) refl

cut_last : (w : Text) → IsWord w → cut is_delim w ≡ (w, none)
unfolding cut
cut_last [] w = refl
cut_last (c ∷ w) (word_char k w') = rw (k, cut_last w w') refl

tokens-none : (n : ℕ) → tokens n none ≡ []
unfolding tokens
tokens-none zero = refl
tokens-none (suc n) = refl

pub tokens-HasWords :
    (fuel : ℕ) (line : Text) (ws : List Text)
    → length line < fuel
    → HasWords line ws
    → tokens fuel (some line) ≡ ws
unfolding tokens lcc_strsepx lcc_my_strsep lcc_skip_to_token_start
tokens-HasWords zero line ws h r = absurd (omega arith)
tokens-HasWords (suc n) _ _ h (blank {gap} g) =
    unfold cut in rw (skip_all gap g, tokens-none n) refl
tokens-HasWords (suc n) _ _ h (last_word {gap} {w} {c} g k) =
    rw (skip_gap gap (c ∷ w) g, skip_word c w k, cut_last (c ∷ w) k, tokens-none n) refl
tokens-HasWords (suc n) _ _ h (next_word {gap} {w} {t} {c} {ws} d g k e r) =
    rw (skip_gap gap ((c ∷ w) ++ (d ∷ t)) g, skip_none c w (d ∷ t) k, cut_word (c ∷ w) t d k e)
      (ap (◌∷◌ (c ∷ w)) (
        tokens-HasWords n t ws
          (omega (arith, length-append gap ((c ∷ w) ++ (d ∷ t)), length-append (c ∷ w) (d ∷ t), h))
          r))

-- With fuel above the length of the line, the arguments that the chat client takes from a line are
-- its words: the longest runs of characters that are no delimiters, in order, each once, and then
-- one more, an empty one, if the line has no such run or ends with a delimiter.
pub tokens_lem :
    (fuel : ℕ) (line : Text) → length line < fuel → HasWords line (tokens fuel (some line))
tokens_lem fuel line h =
    let (ws, has) = words_of line in
    subst (HasWords line) (sym (tokens-HasWords fuel line ws h has)) has
