-- ===== src/Server/Loop/Slots.antt =====
-- The slots of clients[]: where a new connection is put.
use smsg.Base.{
  ℕ, zero, suc, ◌+◌, ◌≤◌, ◌<◌, ◌≡◌, refl, List, [], ◌∷◌, length, set, get_elem?, false, ◌==◌, leb,
  some, arith, if_keeps, length-set, ◌∙◌,
}
use smsg.Server.{Server, Client, max_clients}
use smsg.Server.Loop.{free_index, accept_client}

-- The array has its declared size, and the count stays within it.
abbrev pub IsBounded : Server → Type 0
IsBounded s = (length s.clients ≡ max_clients) × (s.num_clients ≤ max_clients)

free_index_le : (n : ℕ) (cs : List Client) (i : ℕ) → free_index n cs i ≤ n
unfolding free_index
free_index_le n [] i = omega arith
free_index_le n (x ∷ cs) i = ground (arith, free_index_le n cs (suc i))

free_index_ge : (n : ℕ) (cs : List Client) (i : ℕ) → i ≤ n → i ≤ free_index n cs i
unfolding free_index
free_index_ge n [] i h = h
free_index_ge n (x ∷ cs) i h = ground (arith, free_index_ge n cs (suc i))

-- The slot that is found holds no connection, unless it is the next unused one.
free_index_live :
    (n : ℕ) (cs : List Client) (i j : ℕ) (c : Client) (fd : ℕ)
    → get_elem? cs j ≡ some c
    → c.fd ≡ some fd
    → i + j < n
    → (free_index n cs i == i + j) ≡ false
unfolding free_index
free_index_live n [] i j c fd g live below = cc
free_index_live n (x ∷ cs) i zero c fd g live below =
    let same : x ≡ c = cc in ground (arith, free_index_ge n cs (suc i))
free_index_live n (x ∷ cs) i (suc j) c fd g live below =
    ground (arith, free_index_live n cs (suc i) j c fd g live)

get_elem?-set :
    {A : Type 0} (xs : List A) (i j : ℕ) (v : A)
    → (i == j) ≡ false
    → get_elem? (set xs i v) j ≡ get_elem? xs j
get_elem?-set [] i j v other = refl
get_elem?-set (x ∷ xs) zero zero v other = absurd (cc other)
get_elem?-set (x ∷ xs) zero (suc j) v other = refl
get_elem?-set (x ∷ xs) (suc i) zero v other = refl
get_elem?-set (x ∷ xs) (suc i) (suc j) v other = get_elem?-set xs i j v (ground arith)

-- Below the limit the slot that is found is one of the array.
free_index-length :
    (s : Server)
    → IsBounded s
    → leb max_clients s.num_clients ≡ false
    → free_index s.num_clients s.clients 0 < length s.clients
free_index-length s b below = ground (arith, b.0, free_index_le s.num_clients s.clients 0)

get_elem?-set_same :
    {A : Type 0} (xs : List A) (i : ℕ) (v : A) → i < length xs → get_elem? (set xs i v) i ≡ some v
get_elem?-set_same [] i v h = absurd (omega arith)
get_elem?-set_same (x ∷ xs) zero v h = refl
get_elem?-set_same (x ∷ xs) (suc i) v h = get_elem?-set_same xs i v (omega arith)

-- Below the limit the connection gets a slot that the loop serves.
stored :
    (s : Server) (newfd address : ℕ)
    → IsBounded s
    → s.num_clients < max_clients
    → (k : ℕ) × (k < (accept_client s newfd address).num_clients)
      × (get_elem? (accept_client s newfd address).clients k
          ≡ some (record { fd = some newfd; address = address; buf = [] }))
unfolding accept_client
stored s newfd address b below =
    let room : leb max_clients s.num_clients ≡ false = ground arith in
    let bound = free_index_le s.num_clients s.clients 0 in
    let inside = free_index-length s b room in
    rw room (
      free_index s.num_clients s.clients 0,
      ground (arith, bound),
      get_elem?-set_same s.clients (free_index s.num_clients s.clients 0) _ inside,
    )

-- Where clients[] has its declared size and num_clients is within it, taking a connection keeps
-- both so, leaves the table of users alone and leaves every connection in a slot below num_clients
-- there. While num_clients is below the size, the new connection with its address and an empty
-- buffer is in a slot below the new num_clients; once it is the size, nothing changes.
pub accept_client_lem :
    (s : Server) (newfd address : ℕ)
    → IsBounded s
    → IsBounded (accept_client s newfd address)
      × ((accept_client s newfd address).udata ≡ s.udata)
      × ((j fd : ℕ) (c : Client)
          → get_elem? s.clients j ≡ some c
          → c.fd ≡ some fd
          → j < s.num_clients
          → get_elem? (accept_client s newfd address).clients j ≡ some c)
      × (s.num_clients < max_clients
          → (k : ℕ) × (k < (accept_client s newfd address).num_clients)
            × (get_elem? (accept_client s newfd address).clients k
                ≡ some (record { fd = some newfd; address = address; buf = [] })))
      × (s.num_clients ≡ max_clients → accept_client s newfd address ≡ s)
unfolding accept_client
accept_client_lem s newfd address b = (
  (
    if_keeps (λ (r : Server). length r.clients ≡ max_clients) (leb max_clients s.num_clients) b.0
        (length-set s.clients (free_index s.num_clients s.clients 0) _ ∙ b.0),
    ground arith,
  ),
  if_keeps (λ (r : Server). r.udata ≡ s.udata) (leb max_clients s.num_clients) refl refl,
  (λ j fd c g live below.
      let plain : 0 + j ≡ j = omega arith in
      let other =
        rw plain at (free_index_live s.num_clients s.clients 0 j c fd g live (omega arith)) in
      if_keeps (λ (r : Server). get_elem? r.clients j ≡ some c) (leb max_clients s.num_clients) g
        (get_elem?-set s.clients (free_index s.num_clients s.clients 0) j _ other ∙ g)),
  (λ below. stored s newfd address b below),
  λ full. rw full refl,
)
