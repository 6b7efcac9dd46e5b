-- ===== src/Tools/Args.antt =====
-- The loop over the flags in `main` of userspace/planten_coreutils/src/bin/10_ns.rs.
use planten.Base.{
  ◌≡◌, refl, ◌∙◌, append_assoc, if◌then◌else◌, List, [], ◌∷◌, ◌++◌, Str, bytes, str_eq,
}
use planten.Ns.{Namespace, bind, union, p9}

-- The namespace and the arguments from the first that is no flag on; or the message, after which `main`
-- returns.
pub data Flags : Type 0 where
  ready : Namespace → List Str → Flags
  usage : Str → Flags

pub data Flag : Type 0 where
  bind_flag union_flag p9_flag no_flag : Flag

unfoldable pub flag_of : Str → Flag
flag_of arg =
    if str_eq arg (bytes "-b")
    then bind_flag
    else if str_eq arg (bytes "-u")
    then union_flag
    else if str_eq arg (bytes "-p9")
    then p9_flag
    else no_flag

abbrev pub missing_message : Flag → Str
missing_message bind_flag = bytes "-b requires two arguments"
missing_message union_flag = bytes "-u requires two arguments"
missing_message p9_flag = bytes "-p9 requires three arguments: <new> <addr> <path>"
missing_message no_flag = []

-- A flag with too few arguments behind it, or the end of the flags.
unfoldable pub short_of : Flag → Namespace → List Str → Flags
short_of no_flag ns args = ready ns args
short_of bind_flag ns args = usage (missing_message bind_flag)
short_of union_flag ns args = usage (missing_message union_flag)
short_of p9_flag ns args = usage (missing_message p9_flag)

unfoldable pub parse_flags : List Str → Namespace → Flags
parse_flags [] ns = ready ns []
parse_flags (f ∷ []) ns = short_of (flag_of f) ns (f ∷ [])
parse_flags (f ∷ a ∷ []) ns = short_of (flag_of f) ns (f ∷ a ∷ [])
parse_flags (f ∷ a ∷ b ∷ []) ns = elim (flag_of f) [
  | bind_flag ↦ ready (bind a b ns) []
  | union_flag ↦ ready (union a b ns) []
  | p9_flag ↦ short_of p9_flag ns (f ∷ a ∷ b ∷ [])
  | no_flag ↦ ready ns (f ∷ a ∷ b ∷ [])
]
parse_flags (f ∷ a ∷ b ∷ c ∷ args) ns = elim (flag_of f) [
  | bind_flag ↦ parse_flags (c ∷ args) (bind a b ns)
  | union_flag ↦ parse_flags (c ∷ args) (union a b ns)
  | p9_flag ↦ parse_flags args (p9 a b c ns)
  | no_flag ↦ ready ns (f ∷ a ∷ b ∷ c ∷ args)
]

-- What the flags ask for, one after another.
pub data Request : Type 0 where
  ask_bind : Str → Str → Request
  ask_union : Str → Str → Request
  ask_p9 : Str → Str → Str → Request

abbrev pub print_request : Request → List Str
print_request (ask_bind new old) = bytes "-b" ∷ new ∷ old ∷ []
print_request (ask_union new old) = bytes "-u" ∷ new ∷ old ∷ []
print_request (ask_p9 new addr path) = bytes "-p9" ∷ new ∷ addr ∷ path ∷ []

abbrev pub print_requests : List Request → List Str
print_requests [] = []
print_requests (r ∷ rs) = print_request r ++ print_requests rs

abbrev pub apply_request : Request → Namespace → Namespace
apply_request (ask_bind new old) ns = bind new old ns
apply_request (ask_union new old) ns = union new old ns
apply_request (ask_p9 new addr path) ns = p9 new addr path ns

abbrev pub apply_requests : List Request → Namespace → Namespace
apply_requests [] ns = ns
apply_requests (r ∷ rs) ns = apply_requests rs (apply_request r ns)

-- The arguments that are left are a command.
abbrev pub IsCommand : List Str → Type 0
IsCommand [] = Unit {0}
IsCommand (arg ∷ args) = flag_of arg ≡ no_flag

command_ready :
    (args : List Str) (ns : Namespace) → IsCommand args → parse_flags args ns ≡ ready ns args
unfolding parse_flags short_of
command_ready [] ns h = refl
command_ready (f ∷ []) ns h = rw (h, short_of) refl
command_ready (f ∷ a ∷ []) ns h = rw (h, short_of) refl
command_ready (f ∷ a ∷ b ∷ []) ns h = rw (h, parse_flags) refl
command_ready (f ∷ a ∷ b ∷ c ∷ args) ns h = rw (h, parse_flags) refl

parse_request :
    (r : Request) (args : List Str) (ns : Namespace)
    → parse_flags (print_request r ++ args) ns ≡ parse_flags args (apply_request r ns)
unfolding parse_flags flag_of str_eq
parse_request (ask_bind new old) [] ns = refl
parse_request (ask_bind new old) (c ∷ args) ns = refl
parse_request (ask_union new old) [] ns = refl
parse_request (ask_union new old) (c ∷ args) ns = refl
parse_request (ask_p9 new addr path) args ns = refl

-- Flags with their arguments, and behind them a command: each is carried out on the namespace, in their
-- order, and the command is left.
pub parse_flags-print_requests :
    (requests : List Request) (command : List Str) (ns : Namespace)
    → IsCommand command
    → parse_flags (print_requests requests ++ command) ns
      ≡ ready (apply_requests requests ns) command
parse_flags-print_requests [] command ns h = command_ready command ns h
parse_flags-print_requests (r ∷ rs) command ns h =
    rw (append_assoc (print_request r) (print_requests rs) command) (
      parse_request r (print_requests rs ++ command) ns
      ∙ parse_flags-print_requests rs command (apply_request r ns) h)
