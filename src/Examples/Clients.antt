-- ===== src/Examples/Clients.antt =====
-- server.c and servchat.c: single operations on the server of two users.
use smsg.Server.Spread.{lcs_dist_ncmd_lem}
use smsg.Server.{lcs_dist_ncmd, is_chatting, not_excluded}
use smsg.Base.{
  List, ◌&&◌, ◌++◌, map, true, ◌+◌, ◌<◌, get_elem?, ℕ, ◌≡◌, ◌≤◌, refl, [], ◌∷◌, length, true, false,
  none, some, arith, ap, sym, append-nil,
}
use smsg.Base.Text.{Text, literal, text_eq, c_string}
use smsg.Ncmd.Opcode.{code, c_kick}
use smsg.Ncmd.Frame.{Command, encode, encode_args, IsSized}
use smsg.Server.Authority.{kicks, may_moderate, denial, answered, ls_handle_netcmd_denied}
use smsg.Server.Dispatch.{ls_handle_netcmd}
use smsg.Server.Userinfo.{labelled, labelled_fits}
use smsg.Server.Loop.Slots.{IsBounded, accept_client_lem}
use smsg.Udata.{UdataEnt, first, udata_get_by_nick, udata_get_by_fd}
use smsg.Host.{local_address}
use smsg.Server.{Server, Client, max_clients}
use smsg.Server.Loop.{accept_client}
use smsg.Examples.{memory-IsPlentiful, host, al, server}

abbrev slot : Client
slot = record { fd = some 5; address = local_address; buf = [] }

accept_client_example :
    IsBounded (accept_client server 6 local_address)
    × ((accept_client server 6 local_address).udata ≡ server.udata)
    × ((j fd : ℕ) (c : Client)
        → get_elem? server.clients j ≡ some c
        → c.fd ≡ some fd
        → j < server.num_clients
        → get_elem? (accept_client server 6 local_address).clients j ≡ some c)
    × (server.num_clients < max_clients
        → (k : ℕ) × (k < (accept_client server 6 local_address).num_clients)
          × (get_elem? (accept_client server 6 local_address).clients k
              ≡ some (record { fd = some 6; address = local_address; buf = [] })))
    × (server.num_clients ≡ max_clients → accept_client server 6 local_address ≡ server)
accept_client_example = accept_client_lem server 6 local_address (refl, omega arith)

-- The operator al tries to kick a nick that nobody has.
abbrev kicks_nobody : Command
kicks_nobody = record { op = code c_kick; args = literal "zz" ∷ [] }

abbrev with_kick : Server
with_kick = record server {
  clients = record { fd = some 5; address = local_address; buf = encode kicks_nobody } ∷ [];
}

kicks_nobody-IsSized : IsSized kicks_nobody
unfolding encode encode_args code
kicks_nobody-IsSized = record {
  op_word = omega arith;
  args_word = omega arith;
  size_int = omega arith;
}

found_al : udata_get_by_fd with_kick.udata (some 5) ≡ some al
unfolding udata_get_by_fd first
found_al = refl

al_named :
    (e : UdataEnt)
    → udata_get_by_fd with_kick.udata (some 5) ≡ some e
    → (nick : Text) × (e.nick ≡ some nick)
al_named e found =
    let same : al ≡ e = cc (found_al, found) in
    (literal "al", ap (λ (x : UdataEnt). x.nick) (sym same))

nobody_called : may_moderate with_kick (some al) kicks_nobody.args ≡ false
unfolding udata_get_by_nick first text_eq c_string
nobody_called = refl

ls_handle_netcmd_denied_example :
    ls_handle_netcmd host (literal "0.9") (literal "Linux") with_kick 0
    ≡ answered with_kick (denial with_kick 5 c_kick kicks_nobody.args)
ls_handle_netcmd_denied_example =
    ls_handle_netcmd_denied host (literal "0.9") (literal "Linux") with_kick 0 c_kick 5
      local_address kicks_nobody [] memory-IsPlentiful kicks kicks_nobody-IsSized refl
      (ap (λ b. some (record { fd = some 5; address = local_address; buf = b }))
        (sym (append-nil (encode kicks_nobody))))
      al_named (rw found_al nobody_called)

labelled_fits_example :
    length (labelled (some (literal "al")) none (literal "host")).text + 1
    ≤ (labelled (some (literal "al")) none (literal "host")).allocated
labelled_fits_example = labelled_fits (some (literal "al")) none (literal "host")

lcs_dist_ncmd_example :
    (fds : List ℕ) × ((lcs_dist_ncmd host server (literal "hi") (some 1)).0.sent
      ≡ server.sent ++ map (λ fd. (fd, literal "hi")) fds)
    × ((i fd : ℕ) (c : Client)
        → get_elem? server.clients i ≡ some c
        → c.fd ≡ some fd
        → (not_excluded (some 1) i && is_chatting server (some fd)) ≡ true
        → (k : ℕ) × (get_elem? fds k ≡ some fd))
    × ((k fd : ℕ)
        → get_elem? fds k ≡ some fd
        → (i : ℕ) × (c : Client) × (get_elem? server.clients i ≡ some c)
          × (c.fd ≡ some fd)
          × ((not_excluded (some 1) i && is_chatting server (some fd)) ≡ true))
lcs_dist_ncmd_example = lcs_dist_ncmd_lem host server (literal "hi") (some 1)
