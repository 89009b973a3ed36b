-- ===== src/Clchat/Complete/Tab.antt =====
-- Tab on a line, in terms of the text around the cursor.
use smsg.Base.{
  ℕ, ◌<◌, ◌≡◌, refl, List, [], ◌∷◌, ◌++◌, length, drop, Bool, true, Option, none, some, on_option,
  arith,
}
use smsg.Base.Outcome.{ok}
use smsg.Base.Memory.{IsPlentiful}
use smsg.Base.Text.{Text}
use smsg.Client.{Machine}
use smsg.Clchat.Draft.{Draft, put, line_of}
use smsg.Clchat.Draft.Insert.{lcc_input_edit_wizard_lem}
use smsg.Clchat.Complete.{
  tab_key, token_start, command_token, complete, complete_command, complete_nick, put_match,
}
use smsg.Clchat.Complete.Matches.{
  matching, match_of, find_match_lem, typed_names, command_names_lem, is_token, IsBreak,
  token_start_lem, token_taken,
}

-- What is looked for, and among which names: a command behind a '/' at the start of the line, or a
-- nick.
abbrev pub candidates : ℕ → Text → List Text → Text × List Text
candidates i tok culist = on_option (command_token i tok) (tok, culist) λ t. (t, typed_names)

-- The rest of the only name, and a blank, are put in.
abbrev pub completed : Draft → ℕ → List Text → Draft
completed d k [] = d
completed d k (t ∷ []) = put (drop k (t ++ (32 ∷ []))) d
completed d k (t ∷ u ∷ ts) = d

complete_lem :
    (m : Machine) (d : Draft) (spare : List ℕ) (k : ℕ) (message : Text) (names : List Text)
    → IsPlentiful m.memory
    → (said : Text) × (spare' : List ℕ) × (complete m (line_of d spare) k message (match_of names)
        ≡ ok (line_of (completed d k names) spare', said))
      × (length names < 2 → said ≡ [])
unfolding complete put_match
complete_lem m d spare k message [] p = ([], spare, refl, λ h. refl)
complete_lem m d spare k message (t ∷ []) p =
    let (spare', done) = lcc_input_edit_wizard_lem m.memory d (drop k (t ++ (32 ∷ []))) spare p in
    ([], spare', rw (p.all_copied t, done) refl, λ h. refl)
complete_lem m d spare k message (t ∷ u ∷ ts) p =
    (message, spare, refl, λ h. absurd (omega (arith, h)))

chosen :
    (m : Machine) (culist : List Text) (d : Draft) (spare : List ℕ) (tok : Text) (o : Option Text)
    → IsPlentiful m.memory
    → let c : Text × List Text = on_option o (tok, culist) λ t. (t, typed_names) in
      (said : Text) × (spare' : List ℕ) × (on_option o
          (complete_nick m culist (line_of d spare) tok)
          (λ t. complete_command m (line_of d spare) t)
        ≡ ok (line_of (completed d (length c.0) (matching c.0 c.1)) spare', said))
      × (length (matching c.0 c.1) < 2 → said ≡ [])
unfolding complete_nick complete_command
chosen m culist d spare tok none p =
    rw (find_match_lem tok culist) (complete_lem m d spare (length tok) _ (matching tok culist) p)
chosen m culist d spare tok (some t) p =
    rw (command_names_lem m p, find_match_lem t typed_names)
      (complete_lem m d spare (length t) _ (matching t typed_names) p)

-- With memory plentiful, on a line in which the token before the cursor begins at the line's start
-- or behind a delimiter, Tab looks for the names that begin with it in upper or lower case, among
-- the commands that users type for a token behind '/' at the line's start and among the nicks
-- otherwise. If there is just one, its rest and a blank are put in at the cursor; with none or more
-- the line stays as it is. Nothing is said unless there are two or more.
pub tab_key_lem :
    (m : Machine) (culist : List Text) (pre tok after spare : List ℕ) (ins : Bool)
    → IsPlentiful m.memory
    → IsBreak pre
    → is_token tok ≡ true
    → let d : Draft = record { before = pre ++ tok; after = after; inserting = ins } in
      let c = candidates (length pre) tok culist in
      let names = matching c.0 c.1 in
      (said : Text) × (spare' : List ℕ) × (tab_key m culist (line_of d spare)
        ≡ ok (line_of (completed d (length c.0) names) spare', said))
      × (length names < 2 → said ≡ [])
unfolding tab_key
tab_key_lem m culist pre tok after spare ins p b h =
    let d : Draft = record { before = pre ++ tok; after = after; inserting = ins } in
    let rest = after ++ spare in
    let start : token_start ((pre ++ tok) ++ rest) (length (pre ++ tok)) ≡ ok (length pre) =
      token_start_lem pre tok rest b h in
    rw (start, token_taken pre tok rest)
      (chosen m culist d spare tok (command_token (length pre) tok) p)
