-- ===== src/Clchat/History/Visit.antt =====
-- Going up in the history.
use smsg.Base.{
  ℕ, zero, suc, ◌+◌, ◌-◌, ◌≤◌, ◌≡◌, refl, ap, ◌∙◌, List, [], ◌∷◌, ◌++◌, length, take, replicate,
  length-append, append_assoc, append-nil, take-append, true, arith, leb, le→leb, Bool-cases, inl,
  inr,
}
use smsg.Base.Outcome.{ok}
use smsg.Base.Memory.{Memory, IsPlentiful, realloc}
use smsg.Base.Text.{Text}
use smsg.Clchat.Input.{block, Ibuf, make_room}
use smsg.Clchat.History.{kept_copy}
use smsg.Clchat.History.Lines.{Holds, holds}

-- A buffer with a text, written out.
abbrev pub text_buffer : Text → List ℕ → ℕ → Ibuf
text_buffer t spare ttlen = record { ibuf = block (t ++ spare); ttlen = ttlen; ulen = length t }

pub Holds-eq :
    (bs : Ibuf) (t : Text)
    → Holds bs t
    → (spare : List ℕ) × (bs ≡ text_buffer t spare bs.ttlen) × (length t ≤ bs.ttlen)
Holds-eq bs t (holds spare e l r) =
    (spare, (λ i. record { ibuf = e i; ttlen = bs.ttlen; ulen = l i }), r)

take-length_add :
    (t spare : List ℕ) (n : ℕ) → length t ≤ n → take n (t ++ spare) ≡ t ++ take (n - length t) spare
take-length_add [] spare n h = let plain : n - 0 ≡ n = omega arith in rw plain refl
take-length_add (c ∷ t) spare zero h = absurd (omega arith)
take-length_add (c ∷ t) spare (suc n) h =
    let less : suc n - suc (length t) ≡ n - length t = omega arith in
    rw less (ap (◌∷◌ c) (take-length_add t spare n (omega arith)))

room_made :
    (m : Memory) (t : Text) (spare : List ℕ) (n : ℕ)
    → IsPlentiful m
    → length t ≤ n
    → (bs : Ibuf) × (make_room m (text_buffer t spare n) ≡ ok bs) × Holds bs t
unfolding make_room realloc
room_made m t spare n p h = elim (Bool-cases (leb (n - 10) (length t))) [
  | inl near ↦
      let whole = take-length_add t spare (n + 100) (omega (arith, h)) in
      let behind =
        take (n + 100 - length t) spare ++ replicate (n + 100 - length (t ++ spare)) m.junk in
      let same =
        append_assoc t (take (n + 100 - length t) spare)
          (replicate (n + 100 - length (t ++ spare)) m.junk) in
      (
        text_buffer t behind (n + 100),
        rw (near, p.all_granted (n + 100), whole, same) refl,
        holds behind refl refl (omega (arith, h)),
      )
  | inr far ↦ (text_buffer t spare n, rw far refl, holds spare refl refl h)
]

pub make_room-Holds :
    (m : Memory) (bs : Ibuf) (t : Text)
    → IsPlentiful m
    → Holds bs t
    → (bs' : Ibuf) × (make_room m bs ≡ ok bs') × Holds bs' t
make_room-Holds m bs t p h =
    let (spare, e, fits) = Holds-eq bs t h in
    let (bs', made, has) = room_made m t spare bs.ttlen p fits in
    (bs', ap (make_room m) e ∙ made, has)

copy_made :
    (m : Memory) (t : Text) (spare : List ℕ) (n : ℕ)
    → IsPlentiful m
    → kept_copy m (text_buffer t spare n) ≡ ok (text_buffer t [] n)
unfolding kept_copy realloc
copy_made m t spare n p =
    let fits : leb (length t) (length (t ++ spare)) ≡ true =
      le→leb (length t) (length (t ++ spare)) (omega (arith, length-append t spare)) in
    rw (p.all_granted (length t), fits, take-append (length t) t spare refl, append-nil t) refl

pub kept_copy-Holds :
    (m : Memory) (bs : Ibuf) (t : Text)
    → IsPlentiful m
    → Holds bs t
    → (c : Ibuf) × (kept_copy m bs ≡ ok c) × Holds c t
kept_copy-Holds m bs t p h =
    let (spare, e, fits) = Holds-eq bs t h in
    (
      text_buffer t [] bs.ttlen,
      ap (kept_copy m) e ∙ copy_made m t spare bs.ttlen p,
      holds [] refl refl fits,
    )
