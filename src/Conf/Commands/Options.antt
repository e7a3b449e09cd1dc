-- ===== src/Conf/Commands/Options.antt =====
-- TLSOptions: `tls_conf_set_options` and `tls_conf_dir_set_options_defaults` of src/tls_conf.c.
use Prim.Native.Char.{code}
use mod_tls.Base.{
  ◌≡◌, refl, Bool, true, false, ◌||◌, Option, none, some, List, [], ◌∷◌, String, ◌==◌, arith,
  if◌then◌else◌, any, all,
}
use mod_tls.Proto.{Apr}
use mod_tls.Conf.{Flag, off, on, DirConf, create_dir}
use mod_tls.Conf.Commands.{CmdError, unknown_option}

unfoldable pub is_signed : String → Bool
is_signed String.[] = false
is_signed (String.◌∷◌ c s) = (code c == b'+') || (code c == b'-')

-- `val`, and the option behind its sign.
unfoldable pub split_sign : String → Flag × String
split_sign String.[] = (on, String.[])
split_sign (String.◌∷◌ c s) =
    if code c == b'+' then (on, s) else if code c == b'-' then (off, s) else (on, String.◌∷◌ c s)

pub set_options_defaults : DirConf → DirConf
set_options_defaults dc = record dc { std_env_vars = off; export_cert_vars = off }

-- One option; the error ends the loop.
set_option : Apr → DirConf → String → DirConf × Option CmdError
unfolding split_sign
set_option apr dc option =
    if apr.natcase_eq "Defaults" option
    then (record dc { std_env_vars = off; export_cert_vars = off }, none)
    else (let (val, name) = split_sign option in
        if apr.natcase_eq "StdEnvVars" name
        then (record dc { std_env_vars = val }, none)
        else if apr.natcase_eq "ExportCertData" name
        then (record dc { export_cert_vars = val }, none)
        else (dc, some (unknown_option name)))

abbrev and_rest :
    DirConf × Option CmdError → (DirConf → DirConf × Option CmdError) → DirConf × Option CmdError
and_rest (dc, none) k = k dc
and_rest (dc, some err) k = (dc, some err)

set_option_loop : Apr → DirConf → List String → DirConf × Option CmdError
set_option_loop apr dc [] = (dc, none)
set_option_loop apr dc (option ∷ argv) =
    and_rest (set_option apr dc option) (λ dc'. set_option_loop apr dc' argv)

pub set_options : Apr → DirConf → List String → DirConf × Option CmdError
set_options apr dc argv =
    set_option_loop apr (if all is_signed argv then dc else set_options_defaults dc) argv

-- `dc` with the two options of `o`.
abbrev pub with_options : DirConf → DirConf → DirConf
with_options dc o = record dc {
  std_env_vars = o.std_env_vars;
  export_cert_vars = o.export_cert_vars;
}

set_option-with_options :
    (apr : Apr) (dc o : DirConf) (option : String)
    → set_option apr (with_options dc o) option
      ≡ (with_options dc (set_option apr o option).0, (set_option apr o option).1)
unfolding set_option
set_option-with_options apr dc o option = ground arith

set_option_loop-with_options :
    (apr : Apr) (argv : List String) (dc o : DirConf)
    → set_option_loop apr (with_options dc o) argv
      ≡ (with_options dc (set_option_loop apr o argv).0, (set_option_loop apr o argv).1)
unfolding set_option_loop
set_option_loop-with_options apr [] dc o = refl
set_option_loop-with_options apr (option ∷ argv) dc o = ground (
  arith,
  set_option-with_options apr dc o option,
  set_option_loop-with_options apr argv dc (set_option apr o option).0,
)

-- An argument list in which some option has no sign resets both options first: what they become,
-- and the error, does not depend on the configuration before, whose other fields stay.
pub set_options_reset :
    (apr : Apr) (dc : DirConf) (argv : List String)
    → all is_signed argv ≡ false
    → set_options apr dc argv
      ≡ (with_options dc (set_options apr create_dir argv).0, (set_options apr create_dir argv).1)
unfolding set_options set_options_defaults create_dir
set_options_reset apr dc argv h =
    rw h (set_option_loop-with_options apr argv dc (set_options_defaults create_dir))

-- An option of this name, under some sign, or a reset.
unfoldable pub touches : Apr → String → String → Bool
unfolding split_sign
touches apr name option =
    apr.natcase_eq "Defaults" option || apr.natcase_eq name (split_sign option).1

set_option_keeps :
    (apr : Apr) (dc : DirConf) (option : String)
    → ((touches apr "StdEnvVars" option ≡ false)
        → (set_option apr dc option).0.std_env_vars ≡ dc.std_env_vars)
      × ((touches apr "ExportCertData" option ≡ false)
          → (set_option apr dc option).0.export_cert_vars ≡ dc.export_cert_vars)
unfolding set_option touches
set_option_keeps apr dc option = (λ h. ground arith, λ h. ground arith)

set_option_loop_keeps :
    (apr : Apr) (argv : List String) (dc : DirConf)
    → ((any (touches apr "StdEnvVars") argv ≡ false)
        → (set_option_loop apr dc argv).0.std_env_vars ≡ dc.std_env_vars)
      × ((any (touches apr "ExportCertData") argv ≡ false)
          → (set_option_loop apr dc argv).0.export_cert_vars ≡ dc.export_cert_vars)
unfolding set_option_loop
set_option_loop_keeps apr [] dc = (λ h. refl, λ h. refl)
set_option_loop_keeps apr (option ∷ argv) dc =
    let (a, b) = set_option_keeps apr dc option in
    let (c, d) = set_option_loop_keeps apr argv (set_option apr dc option).0 in
    (λ h. ground arith, λ h. ground arith)

-- A list of signed options, none of which names or resets `StdEnvVars`, leaves that flag as it was,
-- also if an option is in error.
pub set_options_delta :
    (apr : Apr) (dc : DirConf) (argv : List String)
    → all is_signed argv ≡ true
    → any (touches apr "StdEnvVars") argv ≡ false
    → (set_options apr dc argv).0.std_env_vars ≡ dc.std_env_vars
unfolding set_options
set_options_delta apr dc argv h quiet = rw h ((set_option_loop_keeps apr argv dc).0 quiet)

-- The same for `ExportCertData`.
pub set_options_delta_export :
    (apr : Apr) (dc : DirConf) (argv : List String)
    → all is_signed argv ≡ true
    → any (touches apr "ExportCertData") argv ≡ false
    → (set_options apr dc argv).0.export_cert_vars ≡ dc.export_cert_vars
unfolding set_options
set_options_delta_export apr dc argv h quiet = rw h ((set_option_loop_keeps apr argv dc).1 quiet)
