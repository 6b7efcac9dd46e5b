-- ===== src/Served/Examples.antt =====
-- The shared servers at small inputs: a file system with one file, `/a`, of three bytes.
use planten.Base.{ℕ, ◌≡◌, ◌↔◌, refl, arith, true, none, some, ok, panic}
use planten.Base.{
  List, [], ◌∷◌, ◌++◌, bytes, str_eq, length, get_last?, lookup, insert, All, if◌then◌else◌,
}
use planten.Wire.Utf8.{is_utf8}
use planten.Wire.Bytes.{le_bytes, from_le_bytes, read_exact}
use planten.Wire.Types.{RawMessage, Qid, StrFits}
use planten.Wire.Encode.{encode_walk_body}
use planten.Wire.Decode.{decode_u32, decode_u64}
use planten.Wire.Messages.{rwalk, tread}
use planten.Fs.Inode.{new}
use planten.Ramfs.Bytes.{add_usize}
use planten.Ramfs.Server.State.{new_fid}
use planten.Ramfs.Server.Resolve.{child_path}
use planten.Ramfs.Server.Handlers.{concat_qids}
use planten.Served.View.{FsView, reply, read_slice}
use planten.Served.Opening.{Fids, zero_qid, or_zero_qid, path_or_empty, walk_reply, open_reply}
use planten.Served.Plain.{PlainFids, path_or_root, plain_answer, plain_read, plain_read_known}
use planten.Served.Plain.{plain_read_found}
use planten.Base.{zero, suc, ◌<◌, ◌^◌, ◌-◌, Str, take, get_elem?, Option, is_some, ◌&&◌}
use planten.Fs.FilePath.{components, split, non_empty, IsComponent}
use planten.Served.View.{dir_qid}
use planten.Served.Opening.{read_reply}
use planten.Wire.Encode.{encode_read_body}
use planten.Fs.Inode.{Inode}
use mathlib.Core.Option
use planten.Served.Walks.{AllThere, walk_reply-found}
use planten.Served.Panics.{open_reply-panic}
use planten.Served.ReadPanics.{ReadPanics, read_reply-panic}

abbrev one_file : FsView
one_file = record {
  stat = λ path. if str_eq path (bytes "/a") then some (new 1 (bytes "a") 0o444 [] []) else none;
  read = λ path. if str_eq path (bytes "/a") then some (bytes "abc") else none;
}

abbrev fids : Fids
fids = (1, new_fid (bytes "/") zero_qid) ∷ []

abbrev plain_fids : PlainFids
plain_fids = (1, record { path = bytes "/a"; qid = zero_qid }) ∷ []

name_a-StrFits : All StrFits (bytes "a" ∷ [])
unfolding is_utf8
name_a-StrFits = (record { len = omega arith; utf8 = refl }, tt)

name_b-StrFits : All StrFits (bytes "b" ∷ [])
unfolding is_utf8
name_b-StrFits = (record { len = omega arith; utf8 = refl }, tt)

a-AllThere : AllThere one_file (path_or_empty (lookup 1 fids)) (bytes "a" ∷ [])
unfolding lookup str_eq child_path
a-AllThere = (refl, tt)

b-AllThere : AllThere one_file (path_or_empty (lookup 1 fids)) (bytes "b" ∷ []) → ⊥
unfolding lookup str_eq child_path
b-AllThere (h, t) = cc

root_a-AllThere : AllThere one_file (path_or_root (lookup 7 plain_fids)) (bytes "a" ∷ [])
unfolding lookup str_eq child_path
root_a-AllThere = (refl, tt)

root_b-AllThere : AllThere one_file (path_or_root (lookup 7 plain_fids)) (bytes "b" ∷ []) → ⊥
unfolding lookup str_eq child_path
root_b-AllThere (h, t) = cc

-- A directory `/a` with a file `/a/b`, looked up by components.
abbrev nested : List Str → Option Inode
nested [] = none
nested (a ∷ []) = if str_eq a (bytes "a") then some (new 1 (bytes "a") 0x800001ED [] []) else none
nested (a ∷ b ∷ []) =
    if str_eq a (bytes "a") && str_eq b (bytes "b")
    then some (new 1 (bytes "b") 0o444 [] [])
    else none
nested (a ∷ b ∷ c ∷ p) = none

abbrev two_files : FsView
two_files = record { stat = λ path. nested (components path); read = λ path. none }

abbrev names_a_b : List Str
names_a_b = bytes "a" ∷ bytes "b" ∷ []

names_a_b-StrFits : All StrFits names_a_b
names_a_b-StrFits = (name_a-StrFits.0, name_b-StrFits)

names_a_b-IsComponent : All IsComponent names_a_b
names_a_b-IsComponent =
    ((λ q. absurd (omega (arith, q)), tt), ((λ q. absurd (omega (arith, q)), tt), tt))

root_components : components (path_or_empty (lookup 1 fids)) ≡ []
unfolding lookup components split non_empty
root_components = refl

names_a_b_there :
    (i : ℕ)
    → i < length names_a_b
    → is_some (nested (components (path_or_empty (lookup 1 fids)) ++ take (suc i) names_a_b)) ≡ true
unfolding str_eq
names_a_b_there zero h = rw root_components refl
names_a_b_there (suc zero) h = rw root_components refl
names_a_b_there (suc (suc i)) h = absurd (omega arith)

walk_reply-found_example :
    (p : Str) × (qids : List Qid) × (walk_reply two_files (encode_walk_body 1 2 names_a_b) fids
      ≡ ok (
        reply rwalk (le_bytes 2 2 ++ concat_qids qids),
        insert 2 (new_fid p (or_zero_qid (get_last? qids))) fids,
      ))
    × (components p ≡ components (path_or_empty (lookup 1 fids)) ++ names_a_b)
    × (length qids ≡ 2)
    × ((i : ℕ)
        → i < 2
        → get_elem? qids i
          ≡ Option.map dir_qid
              (nested (components (path_or_empty (lookup 1 fids)) ++ take (suc i) names_a_b)))
walk_reply-found_example =
    walk_reply-found two_files 1 2 names_a_b names_a_b-StrFits (omega arith) (omega arith)
      (omega arith) nested fids (λ path. refl) names_a_b-IsComponent names_a_b_there

open_reply-panic_example :
    (open_reply one_file (1 ∷ 0 ∷ 0 ∷ 0 ∷ []) fids ≡ panic)
    ↔ (length {A = ℕ} (1 ∷ 0 ∷ 0 ∷ 0 ∷ []) ≡ 4)
open_reply-panic_example = open_reply-panic one_file (1 ∷ 0 ∷ 0 ∷ 0 ∷ []) fids

abbrev file_fids : Fids
file_fids = (1, new_fid (bytes "/a") zero_qid) ∷ []

read_reply-panic_example :
    (read_reply one_file true (encode_read_body 1 (2 ^ 64 - 1) 1) file_fids ≡ panic)
    ↔ ReadPanics one_file true (2 ^ 64 - 1) 1 (lookup 1 file_fids)
read_reply-panic_example =
    read_reply-panic one_file true 1 (2 ^ 64 - 1) 1 file_fids (omega arith) (omega arith)
      (omega arith)

abbrev far_read : RawMessage
far_read = record {
  size = 23;
  msg_type = tread;
  tag = 1;
  body = 1 ∷ 0 ∷ 0 ∷ 0 ∷ 255 ∷ 255 ∷ 255 ∷ 255 ∷ 255 ∷ 255 ∷ 255 ∷ 255 ∷ 1 ∷ 0 ∷ 0 ∷ 0 ∷ [];
}

far_read-panics : plain_answer (bytes "dev") one_file true far_read plain_fids ≡ panic
unfolding plain_answer plain_read plain_read_known plain_read_found read_slice add_usize decode_u32
    decode_u64 read_exact from_le_bytes lookup str_eq
far_read-panics = refl
