-- ===== src/Clchat/Receive/Ends.antt =====
-- The loop over the commands that have come always ends.
use smsg.Base.{
  if_keeps_eq, le_of_ltb, ℕ, zero, suc, ◌-◌, ◌<◌, ◌≡◌, ◌||◌, refl, List, [], ◌∷◌, length,
  length-drop, Bool, true, false, ◌==◌, arith, Option, some, ltb,
}
use smsg.Base.Outcome.{Outcome, ok, failed, fault, ◌>>=◌}
use smsg.Base.Memory.{Memory, IsPlentiful}
use smsg.Ncmd.{ncmd_iscomplete, ncmd_remove, ncmd_get, scan_args}
use smsg.Ncmd.Words.{read_nl}
use smsg.Ncmd.Build.{ncmd_set_lem}
use smsg.Ncmd.Opcode.{
  NcmdOp, c_door, c_away, c_ban, c_beep, c_deop, c_kick, c_me, c_nick, c_op, c_oper, c_psay, c_say,
  c_unban, c_who, of_code, code,
}
use smsg.Calls.{set_cmd}
use smsg.Client.{Machine}
use smsg.Clchat.Receive.{Chat}
use smsg.Clchat.Receive.Cases.{
  on_door, on_away, on_me, on_oper, on_psay, on_nick, on_say, on_ban, on_beep, on_deop, on_kick,
  on_op, on_unban, on_moderation,
}
use smsg.Clchat.Receive.Loop.{
  on_command, receive_loop, on_op_code, on_other, ignored, on_who, who_entries, who_type,
  request_who,
}
use smsg.Clchat.Receive.Total.{
  Runs, runs_ok, runs_fault, bind-Runs, read_ns-Runs, runs_rules, case_rules,
}

on_moderation-Runs :
    (m : Machine) (rbuf a b c d : List ℕ) (f : Chat → Chat) (s : Chat)
    → Runs (on_moderation m rbuf a b c d f s)
unfolding on_moderation
on_moderation-Runs m rbuf a b c d f s = search case_rules depth 20

module _ (m : Machine) (rbuf : List ℕ) where
  on_door-Runs : (s : Chat) → Runs (on_door m rbuf s)
  unfolding on_door
  on_door-Runs s = search case_rules depth 20

  on_away-Runs : (s : Chat) → Runs (on_away m rbuf s)
  unfolding on_away
  on_away-Runs s = search case_rules depth 20

  on_me-Runs : (s : Chat) → Runs (on_me m rbuf s)
  unfolding on_me
  on_me-Runs s = search case_rules depth 20

  on_oper-Runs : (s : Chat) → Runs (on_oper m rbuf s)
  unfolding on_oper
  on_oper-Runs s = search case_rules depth 20

  on_psay-Runs : (s : Chat) → Runs (on_psay m rbuf s)
  unfolding on_psay
  on_psay-Runs s = search case_rules depth 20

  on_nick-Runs : (s : Chat) → Runs (on_nick m rbuf s)
  unfolding on_nick
  on_nick-Runs s = search case_rules depth 20

  on_say-Runs : (s : Chat) → Runs (on_say m rbuf s)
  unfolding on_say
  on_say-Runs s = search case_rules depth 20

  on_ban-Runs : (s : Chat) → Runs (on_ban m rbuf s)
  unfolding on_ban
  on_ban-Runs s = search (case_rules, on_moderation-Runs) depth 20

  on_beep-Runs : (s : Chat) → Runs (on_beep m rbuf s)
  unfolding on_beep
  on_beep-Runs s = search case_rules depth 20

  on_deop-Runs : (s : Chat) → Runs (on_deop m rbuf s)
  unfolding on_deop
  on_deop-Runs s = search (case_rules, on_moderation-Runs) depth 20

  on_kick-Runs : (s : Chat) → Runs (on_kick m rbuf s)
  unfolding on_kick
  on_kick-Runs s = search (case_rules, on_moderation-Runs) depth 20

  on_op-Runs : (s : Chat) → Runs (on_op m rbuf s)
  unfolding on_op
  on_op-Runs s = search (case_rules, on_moderation-Runs) depth 20

  on_unban-Runs : (s : Chat) → Runs (on_unban m rbuf s)
  unfolding on_unban
  on_unban-Runs s = search (case_rules, on_moderation-Runs) depth 20

  who_entries-Runs : (itype rounds i : ℕ) (s : Chat) → Runs (who_entries m rbuf itype rounds i s)
  unfolding who_entries
  who_entries-Runs itype zero i s = runs_ok s
  who_entries-Runs itype (suc rounds) i s =
      let again = (λ (j : ℕ) (t : Chat). who_entries-Runs itype rounds j t) in
      search (case_rules, again) depth 20

  on_who-Runs : (s : Chat) → Runs (on_who m rbuf s)
  unfolding on_who who_type
  on_who-Runs s = search (case_rules, who_entries-Runs) depth 20

  ignored-Runs : (o : Outcome (List ℕ)) (s : Chat) → Runs (ignored o s)
  unfolding ignored
  ignored-Runs (ok name) s = runs_ok _
  ignored-Runs failed s = runs_fault
  ignored-Runs fault s = runs_fault

  on_op_code-Runs : (op : ℕ) (o : Option NcmdOp) (s : Chat) → Runs (on_op_code m rbuf op o s)
  unfolding on_op_code on_other
  on_op_code-Runs op (some c_door) s = on_door-Runs s
  on_op_code-Runs op (some c_away) s = on_away-Runs s
  on_op_code-Runs op (some c_me) s = on_me-Runs s
  on_op_code-Runs op (some c_oper) s = on_oper-Runs s
  on_op_code-Runs op (some c_psay) s = on_psay-Runs s
  on_op_code-Runs op (some c_nick) s = on_nick-Runs s
  on_op_code-Runs op (some c_say) s = on_say-Runs s
  on_op_code-Runs op (some c_ban) s = on_ban-Runs s
  on_op_code-Runs op (some c_beep) s = on_beep-Runs s
  on_op_code-Runs op (some c_deop) s = on_deop-Runs s
  on_op_code-Runs op (some c_kick) s = on_kick-Runs s
  on_op_code-Runs op (some c_op) s = on_op-Runs s
  on_op_code-Runs op (some c_unban) s = on_unban-Runs s
  on_op_code-Runs op (some c_who) s = on_who-Runs s
  on_op_code-Runs op _ s = ignored-Runs _ s

  request_who-Runs : (sbuf : List ℕ) (s : Chat) → IsPlentiful m.memory → Runs (request_who m sbuf s)
  unfolding request_who set_cmd
  request_who-Runs sbuf s p =
      rw (ncmd_set_lem m.memory sbuf (code c_who) p) (search runs_rules depth 4)

  on_command-Runs :
      (sbuf : List ℕ) (s : Chat) → IsPlentiful m.memory → Runs (on_command m rbuf sbuf s)
  unfolding on_command ncmd_get
  on_command-Runs sbuf s p =
      bind-Runs _ _ (read_ns-Runs rbuf)
        λ op. bind-Runs _ _ (on_op_code-Runs op (of_code op) s) λ s'. request_who-Runs sbuf s' p

read_nl-Runs : (w : List ℕ) → Runs (read_nl w)
unfolding read_nl
read_nl-Runs [] = runs_fault
read_nl-Runs (a ∷ []) = runs_fault
read_nl-Runs (a ∷ b ∷ []) = runs_fault
read_nl-Runs (a ∷ b ∷ c ∷ []) = runs_fault
read_nl-Runs (a ∷ b ∷ c ∷ d ∷ w) = runs_ok _

scan_args-Runs : (buf : List ℕ) (left i : ℕ) → Runs (scan_args buf left i)
unfolding scan_args
scan_args-Runs buf zero i = runs_ok i
scan_args-Runs buf (suc left) i =
    let again = (λ (j : ℕ). scan_args-Runs buf left j) in
    search (runs_rules, read_nl-Runs, again) depth 8

iscomplete-Runs : (buf : List ℕ) → Runs (ncmd_iscomplete buf)
unfolding ncmd_iscomplete
iscomplete-Runs buf = search (runs_rules, read_ns-Runs, scan_args-Runs) depth 8

-- Removing a command leaves fewer bytes, if it does not read outside the buffer.
data Shortens (n : ℕ) : Outcome (List ℕ × Bool) → Type 0 where
  shortens_fault : Shortens n fault
  shortens_ok : (rest : List ℕ) (done : Bool) → length rest < n → Shortens n (ok (rest, done))

either_true : (b : Bool) → (b || true) ≡ true
either_true true = refl
either_true false = refl

remove-Shortens :
    (m : Memory) (buf : List ℕ) (size : ℕ)
    → IsPlentiful m
    → ncmd_iscomplete buf ≡ ok size
    → (size == 0) ≡ false
    → Shortens (length buf) (ncmd_remove m buf)
unfolding ncmd_remove
remove-Shortens m buf size p e nonzero =
    rw (e, nonzero, p.all_granted (length buf - size))
      (let always : ((length buf == size) || true) ≡ true = either_true (length buf == size) in
        let positive : 0 < size = ground arith in
        rw always (
          if_keeps_eq (Shortens (length buf)) (ltb (length buf) size) (λ h. shortens_fault)
            (λ h.
              shortens_ok _ _
                (omega (arith, le_of_ltb (length buf) size h, length-drop size buf, positive)))))

known-Runs :
    {A B : Type 0} (o : Outcome A) (f : A → Outcome B)
    → Runs o
    → ((a : A) → o ≡ ok a → Runs (f a))
    → Runs (o >>= f)
known-Runs (ok a) f r k = k a refl
known-Runs failed f r k = elim r [ ]
known-Runs fault f r k = runs_fault

shorter-Runs :
    {B : Type 0} (n : ℕ) (o : Outcome (List ℕ × Bool)) (f : List ℕ × Bool → Outcome B)
    → Shortens n o
    → ((r : List ℕ × Bool) → length r.0 < n → Runs (f r))
    → Runs (o >>= f)
shorter-Runs n fault f shortens_fault k = runs_fault
shorter-Runs n o f (shortens_ok rest done h) k = k (rest, done) h

-- With memory plentiful and fuel above the length of the buffer, whatever bytes are in the buffer,
-- the loop of the chat client over the received commands ends: it returns a state, or it has
-- touched memory that it may not.
pub receive_loop-Runs :
    (fuel : ℕ) (m : Machine) (rbuf sbuf : List ℕ) (s : Chat)
    → IsPlentiful m.memory
    → length rbuf < fuel
    → Runs (receive_loop fuel m rbuf sbuf s)
unfolding receive_loop
receive_loop-Runs zero m rbuf sbuf s p h = absurd (omega arith)
receive_loop-Runs (suc fuel) m rbuf sbuf s p h =
    known-Runs (ncmd_iscomplete rbuf) _ (iscomplete-Runs rbuf) λ size e.
      if_keeps_eq Runs (size == 0) (λ z. runs_ok _)
        λ nonzero. bind-Runs _ _ (on_command-Runs m rbuf sbuf s p) λ r.
          shorter-Runs (length rbuf) _ _ (remove-Shortens m.memory rbuf size p e nonzero)
            λ rest shorter. receive_loop-Runs fuel m rest.0 r.0 r.1 p (omega (arith, shorter, h))
