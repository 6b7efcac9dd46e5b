-- ===== src/Tools/Shell.antt =====
-- The shell in `main` of userspace/planten_coreutils/src/bin/10_ns.rs, on the lines of its input. What the
-- commands of the host return is a parameter.
use planten.Base.{Option, none, some, Res, ok, ◌>>=◌, unwrap, if◌then◌else◌}
use planten.Base.{List, [], ◌∷◌, ◌++◌, Str, bytes, str_eq}
use planten.Fs.FilePath.{non_empty}
use planten.Ns.{Namespace, bind}
use planten.Ns.Storage.{Disk, Json, save_to_storage}
use planten.Tools.Text.{is_whitespace, trim, split_by}
use planten.Tools.Commands.{mount_paths}

-- `cmd.status()`
pub data Status : Type 0 where
  success failure not_started : Status

pub data Event : Type 0 where
  prompt bind_usage mount_usage save_failed : Event
  json_printed : Str → Event
  ran : Str → List Str → Status → Event

pub record Shell : Type 0 where
  pub ns : Namespace
  pub disk : Disk
  pub events : List Event

abbrev pub note : Event → Shell → Shell
note event s = record s { events = s.events ++ (event ∷ []) }

pub data Line : Type 0 where
  stop skip : Line
  command : Str → List Str → Line

abbrev line_of : List Str → Line
line_of [] = skip
line_of (name ∷ args) = command name args

-- `input.trim()`, the test for `exit`, and `split_whitespace`.
unfoldable pub read_command : Str → Line
read_command input =
    if str_eq (trim input) (bytes "exit")
    then stop
    else line_of (non_empty (split_by is_whitespace (trim input)))

unfoldable pub bind_builtin : List Str → Shell → Shell
bind_builtin (new ∷ old ∷ []) s = record s { ns = bind new old s.ns }
bind_builtin _ s = note bind_usage s

unfoldable pub mount_builtin : List Str → Shell → Shell
mount_builtin (new ∷ old ∷ others) s = record s { ns = mount_paths new (old ∷ others) s.ns }
mount_builtin _ s = note mount_usage s

-- After a builtin the namespace is saved; where that fails, the disk is as it was.
abbrev pub noted_save : Option Disk → Shell → Shell
noted_save none s = note save_failed s
noted_save (some disk) s = record s { disk = disk }

module _ (json : Json) where
  unfoldable pub nsctl_builtin : Shell → Res Shell
  nsctl_builtin s = do text ← unwrap (json.to_string_pretty s.ns); ok (note (json_printed text) s)

  unfoldable pub save_shell : Shell → Shell
  save_shell s = noted_save (save_to_storage json s.ns s.disk) s

module _ (json : Json) (status : Str → List Str → Status) where
  unfoldable pub run_line : Str → List Str → Shell → Res Shell
  run_line name args s =
      if str_eq name (bytes "bind")
      then ok (save_shell json (bind_builtin args s))
      else if str_eq name (bytes "mount")
      then ok (save_shell json (mount_builtin args s))
      else if str_eq name (bytes "nsctl")
      then (nsctl_builtin json s >>= λ s'. ok (save_shell json s'))
      else ok (note (ran name args (status name args)) s)

  -- The lines are those of the input, up to its end.
  unfoldable pub shell_loop : List Str → Shell → Res Shell
  shell_loop [] s = ok (note prompt s)
  shell_loop (line ∷ lines) s = elim (read_command line) [
    | stop ↦ ok (note prompt s)
    | skip ↦ shell_loop lines (note prompt s)
    | command name args ↦ (run_line name args (note prompt s) >>= λ s'. shell_loop lines s')
  ]
