-- ===== src/Server/Evolution.antt =====
-- How the table of users may change: an account of what every handler keeps.
use smsg.Base.{
  ◌≡◌, refl, sym, ap, ◌∙◌, List, [], ◌∷◌, Bool, true, false, ◌&&◌, Option, none, some, arith,
  Bool-cases, inl, inr,
}
use smsg.Base.Text.{Text, text_eq, text_eq_iff, text_eq_refl}
use smsg.Udata.{UdataEnt, first, modify, has_user, is_text, udata_get}
use smsg.Udata.Lookup.{KeepsUser, first-modify}
use smsg.Udata.Distinct.{IsDistinct, IsFree, modify-IsDistinct}

-- A banned user is not present.
abbrev pub IsBarred : UdataEnt → Type 0
IsBarred e = (e.flags.banned && e.flags.present) ≡ false

abbrev pub AllBarred : List UdataEnt → Type 0
AllBarred [] = Unit {0}
AllBarred (e ∷ l) = IsBarred e × AllBarred l

pub record IsOrderly (l : List UdataEnt) : Type 0 where
  pub distinct : IsDistinct l
  pub barred : AllBarred l

abbrev pub banned_entry : Option UdataEnt → Bool
banned_entry none = false
banned_entry (some e) = e.flags.banned

-- Is the user with that name banned?
unfoldable pub is_banned : List UdataEnt → Text → Bool
unfolding udata_get
is_banned l user = banned_entry (udata_get l (some user))

-- From an orderly table an orderly one comes, and no ban is lifted.
pub record Evolves (l l' : List UdataEnt) : Type 0 where
  pub orderly : IsOrderly l → IsOrderly l'
  pub bans_stay : IsOrderly l → (u : Text) → is_banned l u ≡ true → is_banned l' u ≡ true

pub Evolves-refl : (l : List UdataEnt) → Evolves l l
Evolves-refl l = record { orderly = λ o. o; bans_stay = λ o u b. b }

pub Evolves-trans : {l l' l'' : List UdataEnt} → Evolves l l' → Evolves l' l'' → Evolves l l''
Evolves-trans p q = record {
  orderly = λ o. q.orderly (p.orderly o);
  bans_stay = λ o u b. q.bans_stay (p.orderly o) u (p.bans_stay o u b);
}

-- A change of one entry that bars it if it was barred, and keeps its ban.
abbrev pub KeepsBan : (UdataEnt → UdataEnt) → UdataEnt → Type 0
KeepsBan change e =
    IsBarred e → IsBarred (change e) × (e.flags.banned ≡ true → (change e).flags.banned ≡ true)

AllBarred-modify :
    (user : Text) (change : UdataEnt → UdataEnt) (l : List UdataEnt)
    → ((e : UdataEnt) → first (has_user user) l ≡ some e → KeepsBan change e)
    → AllBarred l
    → AllBarred (modify (has_user user) change l)
unfolding first modify
AllBarred-modify user change [] keeps b = tt
AllBarred-modify user change (e ∷ l) keeps b = elim (Bool-cases (has_user user e)) [
  | inl hit ↦ rw hit ((keeps e (rw hit) b.0).0, b.1)
  | inr miss ↦ rw miss (b.0, AllBarred-modify user change l (λ e' f. keeps e' (rw miss f)) b.1)
]

pub first-IsBarred :
    (test : UdataEnt → Bool) (l : List UdataEnt) (e : UdataEnt)
    → AllBarred l
    → first test l ≡ some e
    → IsBarred e
unfolding first
first-IsBarred test [] e b f = cc
first-IsBarred test (x ∷ l) e b f = elim (Bool-cases (test x)) [
  | inl hit ↦ let same : x ≡ e = ground arith in rw (← same) b.0
  | inr miss ↦ first-IsBarred test l e b.1 (rw miss at f)
]

banned-modify :
    (user u : Text) (change : UdataEnt → UdataEnt) (l : List UdataEnt) (r : Option UdataEnt)
    → first (has_user u) l ≡ r
    → KeepsUser change
    → ((e : UdataEnt) → first (has_user user) l ≡ some e → KeepsBan change e)
    → AllBarred l
    → banned_entry r ≡ true
    → banned_entry (first (has_user u) (modify (has_user user) change l)) ≡ true
banned-modify user u change l none f same keeps b banned = cc
banned-modify user u change l (some e) f same keeps b banned =
    rw (first-modify u user change l same, f)
      (elim (Bool-cases (text_eq u user)) [
        | inl hit ↦
            let g : first (has_user user) l ≡ some e = rw (← (text_eq_iff u user).0 hit) f in
            rw hit ((keeps e g (first-IsBarred (has_user user) l e b g)).1 banned)
        | inr miss ↦ rw miss banned
      ])

-- The change has to keep the ban of the entry that it is made to, and of no other.
pub Evolves-modify :
    (user : Text) (change : UdataEnt → UdataEnt) (l : List UdataEnt)
    → KeepsUser change
    → ((e : UdataEnt) → first (has_user user) l ≡ some e → KeepsBan change e)
    → Evolves l (modify (has_user user) change l)
unfolding is_banned udata_get
Evolves-modify user change l same keeps = record {
  orderly = λ o. record {
    distinct = modify-IsDistinct user change l same o.distinct;
    barred = AllBarred-modify user change l keeps o.barred;
  };
  bans_stay = λ o u. banned-modify user u change l (first (has_user u) l) refl same keeps o.barred;
}

-- It may be taken for granted that the table is orderly.
pub Evolves-given : {l l' : List UdataEnt} → (IsOrderly l → Evolves l l') → Evolves l l'
Evolves-given f = record {
  orderly = λ o. (f o).orderly o;
  bans_stay = λ o u b. (f o).bans_stay o u b;
}

pub first-test :
    (test : UdataEnt → Bool) (l : List UdataEnt) (e : UdataEnt)
    → first test l ≡ some e
    → test e ≡ true
unfolding first
first-test test [] e f = cc
first-test test (x ∷ l) e f = elim (Bool-cases (test x)) [
  | inl hit ↦ let same : x ≡ e = ground arith in rw (← same) hit
  | inr miss ↦ first-test test l e (rw miss at f)
]

free_other :
    (test : UdataEnt → Bool) (p : Option Text) (l : List UdataEnt) (e : UdataEnt) (user : Text)
    → IsFree p l
    → first (has_user user) l ≡ some e
    → is_text user p ≡ false
free_other test none l e user free f = absurd free
free_other test (some t) l e user free f = elim (Bool-cases (text_eq user t)) [
  | inl same ↦
      let t_free : first (has_user user) l ≡ none = rw ((text_eq_iff user t).0 same) free in
      cc (sym t_free ∙ f)
  | inr other ↦ other
]

-- Without duplicates, an entry that some loop found is the one that its user's name finds.
pub first-has_user :
    (test : UdataEnt → Bool) (l : List UdataEnt) (e : UdataEnt) (user : Text)
    → IsDistinct l
    → first test l ≡ some e
    → e.user ≡ some user
    → first (has_user user) l ≡ some e
unfolding first
first-has_user test [] e user d f n = cc
first-has_user test (x ∷ l) e user d f n = elim (Bool-cases (test x)) [
  | inl hit ↦ let same : x ≡ e = ground arith in rw same (rw n (rw (text_eq_refl user)))
  | inr miss ↦
      let found = first-has_user test l e user d.1 (rw miss at f) n in
      rw (free_other test x.user l e user d.0 found) found
]

pub modify-modify :
    (user : Text) (f g : UdataEnt → UdataEnt) (l : List UdataEnt)
    → KeepsUser f
    → modify (has_user user) g (modify (has_user user) f l)
      ≡ modify (has_user user) (λ e. g (f e)) l
unfolding modify
modify-modify user f g [] same = refl
modify-modify user f g (e ∷ l) same = elim (Bool-cases (has_user user e)) [
  | inl hit ↦ rw hit (rw (same e, hit))
  | inr miss ↦ rw miss (rw miss (ap (◌∷◌ e) (modify-modify user f g l same)))
]

pub modify_same :
    (test : UdataEnt → Bool) (f : UdataEnt → UdataEnt) (l : List UdataEnt)
    → ((e : UdataEnt) → f e ≡ e)
    → modify test f l ≡ l
unfolding modify
modify_same test f [] same = refl
modify_same test f (e ∷ l) same = ground (arith, same e, modify_same test f l same)
