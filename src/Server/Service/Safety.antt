-- ===== src/Server/Service/Safety.antt =====
-- The states of a server are those that its events lead to.
use smsg.Base.{
  ℕ, ◌≡◌, sym, subst, ap, ◌∙◌, List, [], ◌∷◌, ◌++◌, Bool, true, false, ◌||◌, Option, some,
}
use smsg.Base.Outcome.{ok_injective, both_ok, Outcome, ok}
use smsg.Base.Text.{Text}
use smsg.Host.{Host}
use smsg.Udata.{UdataEnt, udata_get_by_fd, udata_get_by_nick}
use smsg.Udata.Distinct.{IsDistinct}
use smsg.Server.{Server}
use smsg.Server.Loop.{Event, initial, run, step}
use smsg.Server.Permanence.{run-initial}
use smsg.Server.Service.{
  Site, Opening, refused, in_parent, opened, Waiting, interrupted, select_failed, ready, Round,
  Ending, finished, after_wait, serve, served, serve_opened, runserver, open_server,
}

run-append :
    (version os : Text) (s s' s'' : Server) (es es' : List (Host × Event))
    → run version os s es ≡ ok s'
    → run version os s' es' ≡ ok s''
    → run version os s (es ++ es') ≡ ok s''
unfolding run
run-append version os s s' s'' [] es' e e' =
    subst (λ (x : Server). run version os x es' ≡ ok s'') (sym (ok_injective e)) e'
run-append version os s s' s'' ((h, x) ∷ es) es' e e' =
    let (t, first, later) = both_ok (step h version os s x) (λ t. run version os t es) s' e in
    rw first (run-append version os t s' s'' es es' later e')

here :
    (version os : Text) (s s' : Server) (r r' : Ending)
    → ◌≡◌ {A = Outcome (Server × Ending)} (ok (s, r)) (ok (s', r'))
    → (es : List (Host × Event)) × (run version os s es ≡ ok s')
here version os s s' r r' e = ([], unfold run in ap (λ x. ok x.0) (ok_injective e))

after_wait-run :
    (version os : Text) (stop : Bool) (s s' : Server) (r : Ending) (w : Waiting)
    (rest : Server → Outcome (Server × Ending))
    → ((t : Server)
        → rest t ≡ ok (s', r)
        → (es : List (Host × Event)) × (run version os t es ≡ ok s'))
    → after_wait stop version os s w rest ≡ ok (s', r)
    → (es : List (Host × Event)) × (run version os s es ≡ ok s')
after_wait-run version os stop s s' r interrupted rest k e = here version os s s' _ r e
after_wait-run version os stop s s' r select_failed rest k e = here version os s s' _ r e
after_wait-run version os stop s s' r (ready events) rest k e =
    let (t, first, later) = both_ok (run version os s events) rest (s', r) e in
    let (es, more) = k t later in (events ++ es, run-append version os s t s' events es first more)

-- The rounds of a server lead where a history leads.
serve-run :
    (version os : Text) (stop : Bool) (rounds : List Round) (s s' : Server) (r : Ending)
    → serve version os stop s rounds ≡ ok (s', r)
    → (es : List (Host × Event)) × (run version os s es ≡ ok s')
unfolding serve
serve-run version os stop [] s s' r e = here version os s s' _ r e
serve-run version os true (x ∷ rounds) s s' r e = here version os s s' finished r e
serve-run version os false (x ∷ rounds) s s' r e =
    let go_on = x.stopped || x.stopped_late in
    after_wait-run version os x.stopped s s' r x.waiting (λ t. serve version os go_on t rounds)
      (λ t later. serve-run version os go_on rounds t s' r later) e

opened_served :
    (version os : Text) (rounds : List Round) (o : Opening) (text : Text) (s : Server) (r : Ending)
    → serve_opened version os rounds o ≡ ok (served text s r)
    → serve version os false initial rounds ≡ ok (s, r)
opened_served version os rounds (refused t) text s r e = cc
opened_served version os rounds (in_parent t) text s r e = cc
opened_served version os rounds (opened t) text s r e =
    let (x, done, same) =
      both_ok (serve version os false initial rounds) (λ x. ok (served t x.0 x.1)) (served text s r)
        e in
    let state : x.0 ≡ s = cc in let ending : x.1 ≡ r = cc in done ∙ (λ i. ok (state i, ending i))

-- Whatever the machine gives when runserver() opens its log and socket and forks, and whatever its
-- rounds bring, signals, failures of select() and events, in the state in which it stands or has
-- returned no user has two entries, and neither a connection's chatting user nor a user who is
-- found by nick is banned.
pub runserver-initial :
    (p : Site) (version os : Text) (port : ℕ) (autofork : Bool) (rounds : List Round) (text : Text)
    (s : Server) (r : Ending)
    → runserver p version os port autofork rounds ≡ ok (served text s r)
    → IsDistinct s.udata
      × ((fd : Option ℕ) (e : UdataEnt)
          → udata_get_by_fd s.udata fd ≡ some e
          → e.flags.banned ≡ false)
      × ((nick : Text) (e : UdataEnt)
          → udata_get_by_nick s.udata (some nick) ≡ some e
          → e.flags.banned ≡ false)
unfolding runserver
runserver-initial p version os port autofork rounds text s r e =
    let done = opened_served version os rounds (open_server p port autofork) text s r e in
    let (es, reached) = serve-run version os false rounds initial s r done in
    run-initial version os s es reached
