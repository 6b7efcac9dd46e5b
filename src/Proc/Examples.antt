-- ===== src/Proc/Examples.antt =====
-- procfs at a host with two processes (libs/planten_fs_proc/src/fs.rs).
use planten.Base.{◌≡◌, refl, arith, true, ◌||◌, is_some, none, some, if◌then◌else◌, ◌==◌}
use planten.Base.{List, [], ◌∷◌, Str, bytes, contains, to_decimal, str_eq, join, ◌++◌}
use planten.Base.{parse_uint, parse_digits, add_digit}
use planten.Ramfs.Sort.{sort, str_le}
use planten.Proc.Host.{Process, ProcHost, run_status, FindsPids}
use planten.Proc.Files.{write_cmdline, write_stat}
use planten.Proc.Methods.{
  list_pids, pid_exists, parse_pid, walk_proc, open_proc, read_proc, stat_proc,
}
use planten.Proc.Agree.{walk_proc-agrees, opens_unknown}
use planten.Proc.Listed.{walk_proc-listed}
use planten.Proc.Contents.{stat_proc-Shows, Shows}
use planten.Proc.Methods.{proc_dir_inode}

abbrev shell : Process
shell = record {
  name = bytes "sh";
  pid = 12;
  status = run_status;
  status_text = bytes "Run";
  parent = some 9;
  cmd = bytes "sh" ∷ bytes "-c" ∷ [];
  cpu_usage = bytes "0";
  memory = 4096;
  virtual_memory = 8192;
  cwd = none;
  exe = some (bytes "/bin/sh");
  user_id = none;
}

abbrev small_host : ProcHost
small_host = record {
  pids = 9 ∷ 12 ∷ [];
  process = λ n. if n == 12 then some shell else if n == 9 then some shell else none;
  read_to_string = λ path. none;
}

small_host-FindsPids : FindsPids small_host
small_host-FindsPids = ((omega arith, (shell, refl)), ((omega arith, (shell, refl)), tt))

cmdline_ends : write_cmdline shell ≡ bytes "sh" ++ (0 ∷ (bytes "-c" ++ (0 ∷ [])))
unfolding write_cmdline join
cmdline_ends = refl

stat_line : write_stat shell ≡ bytes "12 (sh) R 9 4096 0\n"
unfolding write_stat join to_decimal
stat_line = refl

-- The pids stand in the order of their texts.
pids_listed : list_pids small_host ≡ bytes "12" ∷ bytes "9" ∷ []
unfolding list_pids sort str_le to_decimal
pids_listed = refl

pid_with_sign : pid_exists small_host (bytes "+12") ≡ true
unfolding pid_exists parse_pid parse_uint parse_digits add_digit
pid_with_sign = refl

root_walked : walk_proc small_host [] ≡ some (bytes "12" ∷ bytes "9" ∷ [])
unfolding walk_proc list_pids sort str_le to_decimal
root_walked = refl

nine_listed : contains (bytes "12" ∷ bytes "9" ∷ []) (bytes "9") ≡ true
unfolding contains str_eq
nine_listed = refl

walk_proc-listed_example :
    (is_some (walk_proc small_host (bytes "9" ∷ [])) ≡ true)
    × (is_some (read_proc small_host small_host (bytes "9" ∷ [])) ≡ true)
    × (is_some (stat_proc 5 small_host small_host small_host (bytes "9" ∷ [])) ≡ true)
    × (is_some (open_proc small_host (bytes "9" ∷ [])) ≡ true)
walk_proc-listed_example =
    walk_proc-listed 5 small_host [] (bytes "12" ∷ bytes "9" ∷ []) (bytes "9") small_host-FindsPids
      root_walked nine_listed

abbrev missing_fd : List Str
missing_fd = bytes "12" ∷ bytes "fd" ∷ bytes "7" ∷ []

walk_proc-agrees_example :
    (is_some (read_proc small_host small_host missing_fd)
      ≡ is_some (walk_proc small_host missing_fd))
    × (is_some (stat_proc 5 small_host small_host small_host missing_fd)
        ≡ is_some (walk_proc small_host missing_fd))
    × (is_some (open_proc small_host missing_fd)
        ≡ (is_some (walk_proc small_host missing_fd) || opens_unknown small_host missing_fd))
walk_proc-agrees_example = walk_proc-agrees 5 small_host missing_fd

root_stat : stat_proc 5 small_host small_host small_host [] ≡ some (proc_dir_inode 5 (bytes "/"))
unfolding stat_proc
root_stat = refl

stat_proc-Shows_example : Shows small_host [] (proc_dir_inode 5 (bytes "/"))
stat_proc-Shows_example = stat_proc-Shows 5 small_host [] (proc_dir_inode 5 (bytes "/")) root_stat
