-- ===== src/Clchat/Receive/Stream.antt =====
-- The loop over the commands that have come, on any sequence of commands.
use smsg.Base.{
  ℕ, suc, ◌+◌, ◌≡◌, refl, sym, ap, ◌∙◌, List, [], ◌∷◌, ◌++◌, length, false, ◌==◌, arith,
  append_assoc,
}
use smsg.Base.Outcome.{Outcome, ok, failed, fault, ◌>>=◌}
use smsg.Base.Memory.{IsPlentiful}
use smsg.Ncmd.{ncmd_iscomplete}
use smsg.Ncmd.Frame.{Command, encode, IsSized, length-encode}
use smsg.Ncmd.Complete.{ncmd_iscomplete-encode}
use smsg.Ncmd.Argument.{ncmd_remove-encode}
use smsg.Client.{Machine}
use smsg.Clchat.Receive.{Chat}
use smsg.Clchat.Receive.Loop.{on_command, receive_loop}

-- The bytes of several commands, one after the other.
unfoldable pub encode_all : List Command → List ℕ
encode_all [] = []
encode_all (c ∷ cs) = encode c ++ encode_all cs

pub data AllSized : List Command → Type 0 where
  no_more : AllSized []
  and_sized : {c : Command} {cs : List Command} → IsSized c → AllSized cs → AllSized (c ∷ cs)

-- Each command is handled, with what follows it still in the buffer.
unfoldable pub handle_all :
    Machine → List Command → List ℕ → List ℕ → Chat → Outcome (List ℕ × Chat)
handle_all m [] part sbuf s = ok (sbuf, s)
handle_all m (c ∷ cs) part sbuf s =
    on_command m (encode c ++ (encode_all cs ++ part)) sbuf s >>= λ r. handle_all m cs part r.0 r.1

loop_step :
    (m : Machine) (c : Command) (rest sbuf : List ℕ) (s : Chat) (fuel : ℕ)
    → IsPlentiful m.memory
    → IsSized c
    → receive_loop (suc fuel) m (encode c ++ rest) sbuf s
      ≡ (on_command m (encode c ++ rest) sbuf s >>= λ r. receive_loop fuel m rest r.0 r.1)
unfolding receive_loop
loop_step m c rest sbuf s fuel p h =
    let nonempty : (length (encode c) == 0) ≡ false = ground (arith, length-encode c) in
    rw (ncmd_iscomplete-encode c rest h, nonempty, ncmd_remove-encode m.memory c rest h p) refl

bind_ext :
    {A B : Type 0} (o : Outcome A) (f g : A → Outcome B)
    → ((a : A) → f a ≡ g a)
    → (o >>= f) ≡ (o >>= g)
bind_ext (ok a) f g e = e a
bind_ext failed f g e = refl
bind_ext fault f g e = refl

bind_assoc :
    {A B C : Type 0} (o : Outcome A) (f : A → Outcome B) (g : B → Outcome C)
    → ((o >>= f) >>= g) ≡ (o >>= λ a. f a >>= g)
bind_assoc (ok a) f g = refl
bind_assoc failed f g = refl
bind_assoc fault f g = refl

loop_ends :
    (m : Machine) (part sbuf : List ℕ) (s : Chat) (fuel : ℕ)
    → ncmd_iscomplete part ≡ ok 0
    → receive_loop (suc fuel) m part sbuf s ≡ ok (part, (sbuf, s))
unfolding receive_loop
loop_ends m part sbuf s fuel e = rw e refl

-- With memory plentiful and with fuel above the number of commands, the loop of the chat client
-- over a buffer of whole commands that fit the format, then a part that is not complete, handles
-- each command once and in order, and leaves the part in the buffer.
pub receive_loop-handle_all :
    (m : Machine) (cs : List Command) (part sbuf : List ℕ) (s : Chat) (extra : ℕ)
    → IsPlentiful m.memory
    → AllSized cs
    → ncmd_iscomplete part ≡ ok 0
    → receive_loop (suc (length cs + extra)) m (encode_all cs ++ part) sbuf s
      ≡ (handle_all m cs part sbuf s >>= λ r. ok (part, r))
unfolding handle_all encode_all
receive_loop-handle_all m [] part sbuf s extra p h e = loop_ends m part sbuf s (0 + extra) e
receive_loop-handle_all m (c ∷ cs) part sbuf s extra p (and_sized h hs) e =
    let rest = encode_all cs ++ part in
    let fewer : suc (length cs) + extra ≡ suc (length cs + extra) = omega arith in
    let o = on_command m (encode c ++ rest) sbuf s in
    ap (λ t. receive_loop (suc (suc (length cs) + extra)) m t sbuf s)
      (append_assoc (encode c) (encode_all cs) part)
    ∙ loop_step m c rest sbuf s (suc (length cs) + extra) p h
    ∙ ap (λ n. o >>= λ r. receive_loop n m rest r.0 r.1) fewer
    ∙ bind_ext o _ _ (λ r. receive_loop-handle_all m cs part r.0 r.1 extra p hs e)
    ∙ sym (bind_assoc o (λ r. handle_all m cs part r.0 r.1) (λ r. ok (part, r)))
