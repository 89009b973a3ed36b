-- ===== src/Server/Bans.antt =====
-- What each operation on the table does to bans: lemmas for the handlers.
use smsg.Base.{
  ℕ, ◌≡◌, refl, List, [], ◌∷◌, ◌++◌, Bool, true, false, Option, none, some, arith, if_keeps,
}
use smsg.Base.Memory.{Memory}
use smsg.Base.Text.{Text, text_eq}
use smsg.Ncmd.Opcode.{NcmdOp, c_ban, c_deop, c_kick, c_op, c_unban}
use smsg.Udata.{
  UdataEnt, Flags, first, modify, has_user, is_some, udata_get, udata_add, add_named, udata_update,
  update_named, udata_flagset, udata_flagunset, new_entry, update_entry, add_flags, drop_flags,
  is_default, copied, udata_def_entry, udata_set_qp, with_queue,
}
use smsg.Udata.Lookup.{udata_add-some, udata_add-none, udata_update-some, first-append}
use smsg.Udata.Distinct.{add_named-IsDistinct, update-KeepsUser}
use smsg.Host.{Host}
use smsg.Server.Chat.{flag_operator}
use smsg.Server.Moderation.{flag_banned, flags_of_presence, throw_out, change_flags, moderated}
use smsg.Server.Evolution.{
  IsBarred, AllBarred, Evolves, Evolves-refl, Evolves-trans, Evolves-modify, modify-modify,
  modify_same, is_banned, banned_entry,
}

-- A set of flags without `banned` and `present` may be set, one without `banned` may be cleared.
pub Evolves-flagset :
    (l : List UdataEnt) (user : Text) (f : Flags)
    → f.banned ≡ false
    → f.present ≡ false
    → Evolves l (udata_flagset l user f).0
unfolding udata_flagset
Evolves-flagset l user f nb np =
    Evolves-modify user (add_flags f) l (λ e. refl) (λ e _ b. ground arith)

pub Evolves-flagunset :
    (l : List UdataEnt) (user : Text) (f : Flags)
    → f.banned ≡ false
    → Evolves l (udata_flagunset l user f).0
unfolding udata_flagunset
Evolves-flagunset l user f nb =
    Evolves-modify user (drop_flags f) l (λ e. refl) (λ e _ b. ground arith)

AllBarred-append :
    (l : List UdataEnt) (e : UdataEnt) → IsBarred e → AllBarred l → AllBarred (l ++ (e ∷ []))
AllBarred-append [] e n b = (n, tt)
AllBarred-append (x ∷ l) e n b = (b.0, AllBarred-append l e n b.1)

banned-append :
    (l : List UdataEnt) (e : UdataEnt) (u : Text)
    → banned_entry (first (has_user u) l) ≡ true
    → banned_entry (first (has_user u) (l ++ (e ∷ []))) ≡ true
banned-append l e u b = ground (arith, first-append u l e)

AllBarred-add_named :
    (m : Memory) (l : List UdataEnt) (ne : UdataEnt) (user : Text)
    → AllBarred l
    → AllBarred (add_named m l ne user).0
unfolding add_named
AllBarred-add_named m l ne user b =
    if_keeps (λ (r : List UdataEnt × Bool). AllBarred r.0) (is_some (udata_get l (some user))) b
      (if_keeps (λ (r : List UdataEnt × Bool). AllBarred r.0) _
        (AllBarred-append l (new_entry ne user) (unfold new_entry in refl) b) b)

banned-add_named :
    (m : Memory) (l : List UdataEnt) (ne : UdataEnt) (user u : Text)
    → is_banned l u ≡ true
    → is_banned (add_named m l ne user).0 u ≡ true
unfolding add_named is_banned udata_get
banned-add_named m l ne user u b =
    if_keeps (λ (r : List UdataEnt × Bool). banned_entry (first (has_user u) r.0) ≡ true)
      (is_some (first (has_user user) l)) b
      (if_keeps (λ (r : List UdataEnt × Bool). banned_entry (first (has_user u) r.0) ≡ true) _
        (banned-append l (new_entry ne user) u b) b)

Evolves-add_named :
    (m : Memory) (l : List UdataEnt) (ne : UdataEnt) (user : Text)
    → ne.user ≡ some user
    → Evolves l (add_named m l ne user).0
Evolves-add_named m l ne user n = record {
  orderly = λ o. record {
    distinct = add_named-IsDistinct m l ne user o.distinct;
    barred = AllBarred-add_named m l ne user o.barred;
  };
  bans_stay = λ o u b. banned-add_named m l ne user u b;
}

pub Evolves-add :
    (m : Memory) (l : List UdataEnt) (ne : UdataEnt) (p : Option Text)
    → ne.user ≡ p
    → Evolves l (udata_add m l ne).0
Evolves-add m l ne none n = rw (udata_add-none m l ne n) (Evolves-refl l)
Evolves-add m l ne (some user) n =
    rw (udata_add-some m l ne user n) (Evolves-add_named m l ne user n)

pub Evolves-update :
    (m : Memory) (l : List UdataEnt) (e : UdataEnt) (user : Text)
    → e.user ≡ some user
    → Evolves l (udata_update m l e).0
unfolding update_named
Evolves-update m l e user n =
    let changed : Evolves l (modify (has_user user) (update_entry m e) l) =
      Evolves-modify user (update_entry m e) l (update-KeepsUser m e)
        (λ e' _ b. unfold update_entry in (b, λ banned. banned)) in
    rw (udata_update-some m l e user n) (
      if_keeps After (is_some (udata_get l (some user)))
        (if_keeps After (copied m e.tty) changed (Evolves-refl l))
        (if_keeps After (is_default e) (Evolves-refl l) (Evolves-add m l e (some user) n)))
  where
    After : List UdataEnt × Bool → Type 0
    After r = Evolves l r.0

Evolves-update_unnamed :
    (m : Memory) (l : List UdataEnt) (e : UdataEnt)
    → e.user ≡ none
    → Evolves l (udata_update m l e).0
unfolding udata_update
Evolves-update_unnamed m l e n =
    let same : (udata_update m l e).0 ≡ l = ground (arith, udata_add-none m l e n) in
    rw same (Evolves-refl l)

pub Evolves-update_any :
    (m : Memory) (l : List UdataEnt) (e : UdataEnt) (p : Option Text)
    → e.user ≡ p
    → Evolves l (udata_update m l e).0
Evolves-update_any m l e none n = Evolves-update_unnamed m l e n
Evolves-update_any m l e (some user) n = Evolves-update m l e user n

pub Evolves-set_qp :
    (m : Memory) (l : List UdataEnt) (user : Text) (q : Option (List ℕ))
    → Evolves l (udata_set_qp m l user q).0
unfolding udata_set_qp
Evolves-set_qp m l user q =
    let (l', added) = udata_add m l (record udata_def_entry { user = some user }) in
    let fresh = Evolves-add m l (record udata_def_entry { user = some user }) (some user) refl in
    if_keeps (λ (r : List UdataEnt × Bool). Evolves l r.0) (is_some (udata_get l (some user)))
      (queue_set l) (if_keeps (Evolves l) added (Evolves-trans fresh (queue_set l')) fresh)
  where
    queue_set : (k : List UdataEnt) → Evolves k (modify (has_user user) (with_queue q) k)
    queue_set k = Evolves-modify user (with_queue q) k (λ e. refl) (λ e _ b. (b, λ h. h))

-- The update with nothing to update leaves the table as it is.
update_nothing :
    (m : Memory) (l : List UdataEnt) (user : Text)
    → (udata_update m l (record udata_def_entry { user = some user })).0 ≡ l
unfolding update_named text_eq
update_nothing m l user =
    let nue = record udata_def_entry { user = some user } in
    rw (udata_update-some m l nue user refl) (
      if_keeps (λ (r : List UdataEnt × Bool). r.0 ≡ l) (is_some (udata_get l (some user)))
        (modify_same (has_user user) (update_entry m nue) l (λ e. unfold update_entry in refl))
        refl)

pub throw_out_lem :
    (h : Host) (l : List UdataEnt) (user : Text)
    → throw_out h l user ≡ modify (has_user user) (drop_flags flags_of_presence) l
unfolding throw_out udata_flagunset
throw_out_lem h l user = rw (update_nothing h.memory l user)

pub Evolves-throw_out :
    (h : Host) (l : List UdataEnt) (user : Text) → Evolves l (throw_out h l user)
Evolves-throw_out h l user =
    rw (throw_out_lem h l user)
      (Evolves-modify user (drop_flags flags_of_presence) l (λ e. refl) (λ e _ b. ground arith))

-- The moderated user is present, which an unbanned user only can be.
pub Evolves-moderated :
    (h : Host) (l : List UdataEnt) (user : Text) (tncmd : NcmdOp)
    → ((e : UdataEnt) → first (has_user user) l ≡ some e → e.flags.present ≡ true)
    → Evolves l (moderated h l user tncmd)
unfolding moderated change_flags udata_flagset udata_flagunset
Evolves-moderated h l user c_ban present =
    rw
      (
        throw_out_lem h,
        modify-modify user (add_flags flag_banned) (drop_flags flags_of_presence) l (λ e. refl),
      )
      (Evolves-modify user (λ e. drop_flags flags_of_presence (add_flags flag_banned e)) l
        (λ e. refl) (λ e _ b. ground arith))
Evolves-moderated h l user c_kick present = Evolves-throw_out h l user
Evolves-moderated h l user c_deop present = Evolves-flagunset l user flag_operator refl
Evolves-moderated h l user c_op present = Evolves-flagset l user flag_operator refl refl
Evolves-moderated h l user c_unban present =
    Evolves-modify user (drop_flags flag_banned) l (λ e. refl)
      (λ e f b. let p = present e f in ground arith)
Evolves-moderated h l user _ present = Evolves-refl l
