-- ===== src/Examples/Table.antt =====
-- udata.c on a table of two users.
use smsg.Base.{false, if◌then◌else◌, ◌≡◌, refl, List, [], ◌∷◌, true, none, some}
use smsg.Base.Memory.{Memory}
use smsg.Base.Text.{Text, literal, text_eq}
use smsg.Udata.Fields.{
  IsAdded, IsUpdated, IsAssigned, udata_add_lem, udata_update_lem, udata_flagset_lem,
}
use smsg.Udata.Distinct.{
  IsDistinct, Call, adds, removes, apply_all, udata_get-udata_remove, apply_all-IsDistinct,
}
use smsg.Server.Chat.{flag_away}
use smsg.Udata.{
  first, is_some, udata_get, udata_add, udata_update, udata_flagset, udata_flagunset, udata_remove,
  UdataEnt, udata_def_entry,
}
use smsg.Examples.{memory, memory-IsPlentiful, bo, server, server-IsOrderly}

abbrev cy : UdataEnt
cy = record udata_def_entry { user = some (literal "cy"); nick = some (literal "c"); fd = some 6 }

udata_add_lem_example :
    (is_some (udata_get server.udata (some (literal "cy"))) ≡ true
      → udata_add memory server.udata cy ≡ (server.udata, false))
    × (udata_get server.udata (some (literal "cy")) ≡ none
        → ((udata_add memory server.udata cy).1 ≡ true)
          × ((new : UdataEnt) × (udata_get
                  (udata_add memory server.udata cy).0
                  (some (literal "cy"))
                ≡ some new)
              × IsAdded cy (literal "cy") new))
    × ((u : Text)
        → text_eq u (literal "cy") ≡ false
        → udata_get (udata_add memory server.udata cy).0 (some u) ≡ udata_get server.udata (some u))
udata_add_lem_example = udata_add_lem memory server.udata cy (literal "cy") memory-IsPlentiful refl

abbrev bo_moves : UdataEnt
bo_moves = record udata_def_entry { user = some (literal "bo"); tty = some (literal "/dev/tty2") }

found_bo : udata_get server.udata (some (literal "bo")) ≡ some bo
unfolding udata_get text_eq first
found_bo = refl

udata_update_lem_example :
    ((new : UdataEnt) × (udata_get
          (udata_update memory server.udata bo_moves).0
          (some (literal "bo"))
        ≡ some new)
      × IsUpdated bo_moves bo new)
    × ((u : Text)
        → text_eq u (literal "bo") ≡ false
        → udata_get (udata_update memory server.udata bo_moves).0 (some u)
          ≡ udata_get server.udata (some u))
udata_update_lem_example =
    udata_update_lem memory server.udata bo_moves (literal "bo") bo memory-IsPlentiful refl found_bo

udata_flagset_lem_example :
    ((new : UdataEnt) × (udata_get
          (udata_flagset server.udata (literal "bo") flag_away).0
          (some (literal "bo"))
        ≡ some new)
      × IsAssigned true flag_away bo new)
    × ((new : UdataEnt) × (udata_get
            (udata_flagunset server.udata (literal "bo") flag_away).0
            (some (literal "bo"))
          ≡ some new)
        × IsAssigned false flag_away bo new)
    × ((u : Text)
        → text_eq u (literal "bo") ≡ false
        → (udata_get (udata_flagset server.udata (literal "bo") flag_away).0 (some u)
            ≡ udata_get server.udata (some u))
          × (udata_get (udata_flagunset server.udata (literal "bo") flag_away).0 (some u)
              ≡ udata_get server.udata (some u)))
udata_flagset_lem_example = udata_flagset_lem server.udata (literal "bo") bo flag_away found_bo

udata_get-udata_remove_example :
    udata_get (udata_remove server.udata (some (literal "bo"))).0 (some (literal "al")) ≡ (
      if text_eq (literal "al") (literal "bo")
      then none
      else udata_get server.udata (some (literal "al")))
udata_get-udata_remove_example =
    udata_get-udata_remove server.udata (literal "bo") (literal "al") server-IsOrderly.distinct

abbrev calls : List (Memory × Call)
calls = (memory, adds cy) ∷ (memory, adds cy) ∷ (memory, removes (some (literal "al"))) ∷ []

apply_all-IsDistinct_example : IsDistinct (apply_all server.udata calls)
apply_all-IsDistinct_example = apply_all-IsDistinct server.udata calls server-IsOrderly.distinct
