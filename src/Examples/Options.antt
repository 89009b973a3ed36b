-- ===== src/Examples/Options.antt =====
-- smsg.c on concrete input.
use smsg.Base.{◌≡◌, refl, [], ◌∷◌, ◌++◌, none, true, if◌then◌else◌}
use smsg.Base.Outcome.{ok, fault, ◌>>=◌}
use smsg.Base.Text.{literal}
use smsg.Client.{string_of}
use smsg.Smsg.{Shell, set_destination, Settings, opt_p, go, read_options, read_option, set_port}
use smsg.Smsg.Port.{IsPort, read_options-IsPort}
use smsg.Smsg.Run.{default_settings, get_stdin, filter_nick}
use smsg.Smsg.Defects.{set_destination_fault, filter_nick_lem, get_stdin_lem, all_allowed}
use smsg.Examples.{memory, memory-IsPlentiful}

abbrev shell : Shell
shell = record {
  memory = memory;
  strtol = λ base text. (0, true);
  short_text = λ n. literal "0";
  ttyname = none;
  port_default = 3331;
}

set_destination_fault_example :
    set_destination shell (literal "al" ++ (64 ∷ literal "home")) default_settings ≡ fault
set_destination_fault_example =
    set_destination_fault shell (literal "al") (literal "home") default_settings memory-IsPlentiful
      refl

filter_nick_lem_example :
    filter_nick (literal "a b")
    ≡ (if all_allowed (literal "a b") then ok (literal "a b" ++ (0 ∷ [])) else fault)
filter_nick_lem_example = filter_nick_lem (literal "a b") refl

get_stdin_lem_example : (get_stdin memory (literal "hello") >>= string_of) ≡ fault
get_stdin_lem_example = get_stdin_lem memory (literal "hello") memory-IsPlentiful refl

-- -p 4000
abbrev given_port : Settings
given_port = record default_settings { tport = 4000 }

abbrev shell_4000 : Shell
shell_4000 = record shell { strtol = λ base text. (4000, true) }

goes_on :
    read_options shell_4000 (opt_p (literal "4000") ∷ []) default_settings ≡ ok (go given_port)
unfolding read_options read_option set_port
goes_on = refl

read_options-IsPort_example : IsPort given_port.tport
read_options-IsPort_example =
    read_options-IsPort shell_4000 (opt_p (literal "4000") ∷ []) given_port goes_on
