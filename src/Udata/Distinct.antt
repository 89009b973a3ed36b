-- ===== src/Udata/Distinct.antt =====
-- udata.c: the users of the table's entries, through sequences of operations.
use smsg.Base.{
  ℕ, ◌≡◌, refl, List, [], ◌∷◌, ◌++◌, Bool, true, false, ◌&&◌, if◌then◌else◌, Option, none, some,
  arith, Bool-cases, if_keeps, Option-cases, inl, inr,
}
use smsg.Base.Memory.{Memory}
use smsg.Base.Text.{Text, text_eq, text_eq_iff, text_eq_refl}
use smsg.Udata.{
  UdataEnt, Flags, first, modify, unlink, has_user, is_text, is_some, udata_get, udata_add,
  udata_update, udata_remove, udata_flagset, udata_flagunset, udata_set_qp, new_entry, update_entry,
  add_flags, drop_flags, with_queue, udata_def_entry, add_named, update_named, copied, is_default,
  or_unset,
}
use smsg.Udata.Lookup.{KeepsUser, first-modify, first-append, first-unlink}

-- No entry of the list is this user's.
abbrev pub IsFree : Option Text → List UdataEnt → Type 0
IsFree none l = ⊥
IsFree (some user) l = first (has_user user) l ≡ none

-- Every entry has a user, and no two have the same.
abbrev pub IsDistinct : List UdataEnt → Type 0
IsDistinct [] = Unit {0}
IsDistinct (e ∷ l) = IsFree e.user l × IsDistinct l

IsFree-modify :
    (p : Option Text) (v : Text) (change : UdataEnt → UdataEnt) (l : List UdataEnt)
    → KeepsUser change
    → IsFree p l
    → IsFree p (modify (has_user v) change l)
IsFree-modify none v change l keeps h = h
IsFree-modify (some u) v change l keeps h = ground (arith, first-modify u v change l keeps)

pub modify-IsDistinct :
    (v : Text) (change : UdataEnt → UdataEnt) (l : List UdataEnt)
    → KeepsUser change
    → IsDistinct l
    → IsDistinct (modify (has_user v) change l)
unfolding modify
modify-IsDistinct v change [] keeps d = tt
modify-IsDistinct v change (e ∷ l) keeps d = elim (Bool-cases (has_user v e)) [
  | inl hit ↦ rw hit (rw (keeps e) d.0, d.1)
  | inr miss ↦
      rw miss (IsFree-modify e.user v change l keeps d.0, modify-IsDistinct v change l keeps d.1)
]

IsFree-append :
    (p : Option Text) (user : Text) (l : List UdataEnt) (e : UdataEnt)
    → e.user ≡ some user
    → first (has_user user) l ≡ none
    → is_text user p ≡ false
    → IsFree p l
    → IsFree p (l ++ (e ∷ []))
IsFree-append none user l e named fresh other h = h
IsFree-append (some u) user l e named fresh other h =
    ground (arith, first-append u l e, text_eq_iff u user, text_eq_refl user)

append-IsDistinct :
    (user : Text) (l : List UdataEnt) (e : UdataEnt)
    → e.user ≡ some user
    → first (has_user user) l ≡ none
    → IsDistinct l
    → IsDistinct (l ++ (e ∷ []))
unfolding first
append-IsDistinct user [] e named fresh d = rw named (refl, tt)
append-IsDistinct user (x ∷ l) e named fresh d = elim (Bool-cases (has_user user x)) [
  | inl hit ↦ absurd (cc (hit, fresh))
  | inr miss ↦
      let rest : first (has_user user) l ≡ none = rw miss at fresh in
      (IsFree-append x.user user l e named rest miss d.0, append-IsDistinct user l e named rest d.1)
]

IsFree-unlink :
    (p : Option Text) (v : Text) (l : List UdataEnt) → IsFree p l → IsFree p (unlink (has_user v) l)
unfolding first unlink
IsFree-unlink none v l h = h
IsFree-unlink (some u) v [] h = refl
IsFree-unlink (some u) v (e ∷ l) h = ground (arith, IsFree-unlink (some u) v l)

unlink-IsDistinct :
    (v : Text) (l : List UdataEnt) → IsDistinct l → IsDistinct (unlink (has_user v) l)
unfolding unlink
unlink-IsDistinct v [] d = tt
unlink-IsDistinct v (e ∷ l) d = elim (Bool-cases (has_user v e)) [
  | inl hit ↦ rw hit d.1
  | inr miss ↦ rw miss (IsFree-unlink e.user v l d.0, unlink-IsDistinct v l d.1)
]

pub update-KeepsUser : (m : Memory) (e : UdataEnt) → KeepsUser (update_entry m e)
unfolding update_entry
update-KeepsUser m e tent = refl

free_same :
    (u : Text) (p : Option Text) (l : List UdataEnt)
    → is_text u p ≡ true
    → IsFree p l
    → first (has_user u) l ≡ none
free_same u none l e h = absurd h
free_same u (some t) l e h = rw ((text_eq_iff u t).0 e) h

first-unlink_self :
    (u : Text) (l : List UdataEnt)
    → IsDistinct l
    → first (has_user u) (unlink (has_user u) l) ≡ none
unfolding first unlink
first-unlink_self u [] d = refl
first-unlink_self u (e ∷ l) d = ground (arith, free_same u e.user l, d.0, first-unlink_self u l d.1)

-- In a table without duplicates, udata_get() finds a removed user no more, and finds for every
-- other user what it found before.
pub udata_get-udata_remove :
    (l : List UdataEnt) (user u : Text)
    → IsDistinct l
    → udata_get (udata_remove l (some user)).0 (some u)
      ≡ (if text_eq u user then none else udata_get l (some u))
unfolding udata_get udata_remove
udata_get-udata_remove l user u d = elim (Bool-cases (text_eq u user)) [
  | inl same ↦ rw (same, (text_eq_iff u user).0 same) (ground (arith, first-unlink_self user l d))
  | inr other ↦ rw other (ground (arith, first-unlink u user l other))
]

-- A call of one of the functions that change the table.
pub data Call : Type 0 where
  adds updates : UdataEnt → Call
  removes : Option Text → Call
  sets_qp : Text → Option (List ℕ) → Call
  sets_flags unsets_flags : Text → Flags → Call

unfoldable pub apply : Memory → List UdataEnt → Call → List UdataEnt
apply m l (adds e) = (udata_add m l e).0
apply m l (updates e) = (udata_update m l e).0
apply m l (removes user) = (udata_remove l user).0
apply m l (sets_qp user q) = (udata_set_qp m l user q).0
apply m l (sets_flags user f) = (udata_flagset l user f).0
apply m l (unsets_flags user f) = (udata_flagunset l user f).0

-- The memory may answer each call differently.
unfoldable pub apply_all : List UdataEnt → List (Memory × Call) → List UdataEnt
unfolding apply
apply_all l [] = l
apply_all l ((m, c) ∷ cs) = apply_all (apply m l c) cs

pub add_named-IsDistinct :
    (m : Memory) (l : List UdataEnt) (ne : UdataEnt) (user : Text)
    → IsDistinct l
    → IsDistinct (add_named m l ne user).0
unfolding add_named udata_get
add_named-IsDistinct m l ne user d =
    let linked = append-IsDistinct user l (new_entry ne user) (unfold new_entry in refl) in
    elim (Option-cases (first (has_user user) l)) [
      | inr (e, held) ↦ rw held d
      | inl fresh ↦
          rw fresh
            (elim (Bool-cases
              (m.entry && (m.copies user && (m.copies (or_unset ne.tty) && copied m ne.nick)))) [
                | inl granted ↦ rw granted (linked fresh d)
                | inr short ↦ rw short d
              ])
    ]

pub udata_add-IsDistinct :
    (m : Memory) (l : List UdataEnt) (ne : UdataEnt) (p : Option Text)
    → ne.user ≡ p
    → IsDistinct l
    → IsDistinct (udata_add m l ne).0
unfolding udata_add
udata_add-IsDistinct m l ne none e d = rw (e, udata_add) d
udata_add-IsDistinct m l ne (some user) e d = rw (e, udata_add) (add_named-IsDistinct m l ne user d)

abbrev Kept : List UdataEnt × Bool → Type 0
Kept r = IsDistinct r.0

update_named-IsDistinct :
    (m : Memory) (l : List UdataEnt) (e : UdataEnt) (user : Text)
    → e.user ≡ some user
    → IsDistinct l
    → IsDistinct (update_named m l e user).0
unfolding update_named
update_named-IsDistinct m l e user named d =
    let changed = modify-IsDistinct user (update_entry m e) l (update-KeepsUser m e) d in
    let added = udata_add-IsDistinct m l e (some user) named d in
    if_keeps Kept (is_some (udata_get l (some user))) (if_keeps Kept (copied m e.tty) changed d)
      (if_keeps Kept (is_default e) d added)

pub update_any-IsDistinct :
    (m : Memory) (l : List UdataEnt) (e : UdataEnt) (p : Option Text)
    → e.user ≡ p
    → IsDistinct l
    → IsDistinct (udata_update m l e).0
unfolding udata_update
update_any-IsDistinct m l e none n d =
    rw (n, udata_update)
      (if_keeps Kept (is_default e) {y = udata_add m l e} d (udata_add-IsDistinct m l e none n d))
update_any-IsDistinct m l e (some user) n d =
    rw (n, udata_update) (update_named-IsDistinct m l e user n d)

pub set_qp-IsDistinct :
    (m : Memory) (l : List UdataEnt) (user : Text) (q : Option (List ℕ))
    → IsDistinct l
    → IsDistinct (udata_set_qp m l user q).0
unfolding udata_set_qp
set_qp-IsDistinct m l user q d =
    let fresh =
      udata_add-IsDistinct m l (record udata_def_entry { user = some user }) (some user) refl d in
    if_keeps Kept (is_some (udata_get l (some user)))
      (modify-IsDistinct user (with_queue q) l (λ e. refl) d)
      (if_keeps IsDistinct _ (modify-IsDistinct user (with_queue q) _ (λ e. refl) fresh) fresh)

apply-IsDistinct :
    (m : Memory) (l : List UdataEnt) (c : Call) → IsDistinct l → IsDistinct (apply m l c)
unfolding apply
apply-IsDistinct m l (adds e) d = udata_add-IsDistinct m l e e.user refl d
apply-IsDistinct m l (updates e) d = update_any-IsDistinct m l e e.user refl d
apply-IsDistinct m l (removes none) d = unfold udata_remove in d
apply-IsDistinct m l (removes (some user)) d =
    unfold udata_remove in
    if_keeps Kept (is_some (udata_get l (some user))) (unlink-IsDistinct user l d) d
apply-IsDistinct m l (sets_qp user q) d = set_qp-IsDistinct m l user q d
apply-IsDistinct m l (sets_flags user f) d =
    unfold udata_flagset in modify-IsDistinct user (add_flags f) l (λ e. refl) d
apply-IsDistinct m l (unsets_flags user f) d =
    unfold udata_flagunset in modify-IsDistinct user (drop_flags f) l (λ e. refl) d

-- From a table in which every entry has a user and no two have the same, no sequence of the
-- operations of udata.c, with memory granted or refused at each, leads to a table in which that
-- fails.
pub apply_all-IsDistinct :
    (l : List UdataEnt) (cs : List (Memory × Call)) → IsDistinct l → IsDistinct (apply_all l cs)
unfolding apply_all
apply_all-IsDistinct l [] d = d
apply_all-IsDistinct l ((m, c) ∷ cs) d =
    apply_all-IsDistinct (apply m l c) cs (apply-IsDistinct m l c d)
