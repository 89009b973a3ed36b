-- ===== src/Server/Spread.antt =====
-- servchat.c, lcs_dist_ncmd(): who is sent a command.
use smsg.Base.{
  ℕ, zero, suc, ◌+◌, ◌≡◌, refl, sym, ◌∙◌, List, [], ◌∷◌, ◌⊎◌, ◌++◌, append_assoc, append-nil, map,
  get_elem?, Bool, true, ◌&&◌, if◌then◌else◌, Option, none, some, arith, Bool-cases, inl, inr,
}
use smsg.Host.{Host}
use smsg.Server.{
  Server, Client, sendbuf, is_chatting, recipients, send_all, lcs_dist_ncmd, not_excluded,
}

sent-send_all :
    (h : Host) (s : Server) (msg fds : List ℕ)
    → (send_all h s msg fds).0.sent ≡ s.sent ++ map (λ fd. (fd, msg)) fds
unfolding send_all
sent-send_all h s msg [] = sym (append-nil s.sent)
sent-send_all h s msg (fd ∷ fds) =
    sent-send_all h (sendbuf h s (some fd) msg).0 msg fds
    ∙ append_assoc s.sent ((fd, msg) ∷ []) (map (λ t. (t, msg)) fds)

-- A list in front of which a descriptor was put, or was not.
abbrev with_fd : (ℕ → Bool) → Option ℕ → List ℕ → List ℕ
with_fd wanted o rest = elim o [ none ↦ rest | some fd ↦ if wanted fd then fd ∷ rest else rest ]

later :
    (wanted : ℕ → Bool) (o : Option ℕ) (rest : List ℕ) (k fd : ℕ)
    → get_elem? rest k ≡ some fd
    → (n : ℕ) × (get_elem? (with_fd wanted o rest) n ≡ some fd)
later wanted none rest k fd found = (k, found)
later wanted (some x) rest k fd found = elim (Bool-cases (wanted x)) [
  | inl put ↦ (suc k, rw put found)
  | inr left ↦ (k, rw left found)
]

-- Where an element of such a list comes from.
origin :
    (wanted : ℕ → Bool) (o : Option ℕ) (rest : List ℕ) (k fd : ℕ)
    → get_elem? (with_fd wanted o rest) k ≡ some fd
    → ((o ≡ some fd) × (wanted fd ≡ true)) ⊎ ((n : ℕ) × (get_elem? rest n ≡ some fd))
origin wanted none rest k fd found = inr (k, found)
origin wanted (some x) rest k fd found = elim (Bool-cases (wanted x)) [
  | inr left ↦ inr (k, rw left at found)
  | inl put ↦ from_front put k (rw put at found)
]
  where
    from_front :
        wanted x ≡ true
        → (k : ℕ) → get_elem? (x ∷ rest) k ≡ some fd
        → ((some x ≡ some fd) × (wanted fd ≡ true)) ⊎ ((n : ℕ) × (get_elem? rest n ≡ some fd))
    from_front put zero found = let same : x ≡ fd = cc in inl (found, rw (← same) put)
    from_front put (suc n) found = inr (n, found)

-- An element of clients[] that is to get the message is among the recipients.
recipients_all :
    (test : ℕ → ℕ → Bool) (s : Server) (cs : List Client) (i j fd : ℕ) (c : Client)
    → get_elem? cs j ≡ some c
    → c.fd ≡ some fd
    → (test (i + j) fd && is_chatting s (some fd)) ≡ true
    → (k : ℕ) × (get_elem? (recipients test s i cs) k ≡ some fd)
unfolding recipients
recipients_all test s [] i j fd c g live wanted = cc
recipients_all test s (x ∷ cs) i zero fd c g live wanted =
    let same : x ≡ c = cc in
    let plain : i + 0 ≡ i = omega arith in
    let first_live : x.fd ≡ some fd = rw same live in (0, rw (first_live, rw plain at wanted) refl)
recipients_all test s (x ∷ cs) i (suc j) fd c g live wanted =
    let next : i + suc j ≡ suc i + j = omega arith in
    let (k, found) = recipients_all test s cs (suc i) j fd c g live (rw next at wanted) in
    later (λ t. test i t && is_chatting s (some t)) x.fd (recipients test s (suc i) cs) k fd found

-- Whoever is among the recipients is an element of clients[] that is to get the message.
recipients_only :
    (test : ℕ → ℕ → Bool) (s : Server) (cs : List Client) (i k fd : ℕ)
    → get_elem? (recipients test s i cs) k ≡ some fd
    → (j : ℕ) × (c : Client) × (get_elem? cs j ≡ some c)
      × (c.fd ≡ some fd)
      × ((test (i + j) fd && is_chatting s (some fd)) ≡ true)
unfolding recipients
recipients_only test s [] i k fd found = cc
recipients_only test s (x ∷ cs) i k fd found =
    elim (origin (λ t. test i t && is_chatting s (some t)) x.fd (recipients test s (suc i) cs) k fd
      found) [
        | inl (live, wanted) ↦
            let plain : i + 0 ≡ i = omega arith in (0, x, refl, live, rw plain wanted)
        | inr (n, deeper) ↦
            let (j, c, g, live, wanted) = recipients_only test s cs (suc i) n fd deeper in
            let next : i + suc j ≡ suc i + j = omega arith in (suc j, c, g, live, rw next wanted)
      ]

-- lcs_dist_ncmd() sends the command, after all that was sent before, to the descriptors of a list:
-- each connection in clients[] that is not excluded and whose user is present in the chat is on the
-- list, and each descriptor on the list is that of such a connection.
pub lcs_dist_ncmd_lem :
    (h : Host) (s : Server) (sbuf : List ℕ) (excl_cl : Option ℕ)
    → (fds : List ℕ) × ((lcs_dist_ncmd h s sbuf excl_cl).0.sent
        ≡ s.sent ++ map (λ fd. (fd, sbuf)) fds)
      × ((i fd : ℕ) (c : Client)
          → get_elem? s.clients i ≡ some c
          → c.fd ≡ some fd
          → (not_excluded excl_cl i && is_chatting s (some fd)) ≡ true
          → (k : ℕ) × (get_elem? fds k ≡ some fd))
      × ((k fd : ℕ)
          → get_elem? fds k ≡ some fd
          → (i : ℕ) × (c : Client) × (get_elem? s.clients i ≡ some c)
            × (c.fd ≡ some fd)
            × ((not_excluded excl_cl i && is_chatting s (some fd)) ≡ true))
unfolding lcs_dist_ncmd
lcs_dist_ncmd_lem h s sbuf excl_cl =
    let test : ℕ → ℕ → Bool = λ i fd. not_excluded excl_cl i in
    let fds = recipients test s 0 s.clients in
    (
      fds,
      sent-send_all h s sbuf fds,
      (λ i fd c g live wanted.
          let plain : 0 + i ≡ i = omega arith in
          recipients_all test s s.clients 0 i fd c g live (rw plain wanted)),
      λ k fd found.
          let (j, c, g, live, wanted) = recipients_only test s s.clients 0 k fd found in
          let plain : 0 + j ≡ j = omega arith in (j, c, g, live, rw plain at wanted),
    )
