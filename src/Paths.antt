-- ===== src/Paths.antt =====
-- The paths of pkg/webserver/functions.go: which file a request path names, and which request path a file
-- has. Strings are their bytes here. A path that is absolute and clean is the list of its components. The
-- working directory and filepath.EvalSymlinks enter as arguments.
pub mod Clean
pub mod Inside
pub mod Safe
pub mod Parents
mod Joined
pub mod Requests
mod Tests
use sitebrush_v.Prelude.{
  ℕ, zero, suc, length, ◌+◌, ◌-◌, ◌*◌, Bool, true, false, not, ◌&&◌, ◌||◌, List, [], ◌∷◌, ◌++◌,
  Option, none, some, if◌then◌else◌, between, ◌==◌, map,
}
use sitebrush_v.Text.{
  Text, codes, text_eq, is_empty, has_prefix, trim_prefix, contains, split_on, trim_both,
}

abbrev pub AbsPath : Type 0
AbsPath = List Text

-- strings.Split(s, "/")
unfoldable pub segments : Text → List Text
unfolding split_on
segments s = let (first, others) = split_on b'/' s in first ∷ others

-- The path without its last component: filepath.Dir of a clean absolute path.
unfoldable pub drop_last : List Text → List Text
drop_last [] = []
drop_last (c ∷ []) = []
drop_last (c ∷ d ∷ cs) = c ∷ drop_last (d ∷ cs)

-- The last component, if there is one: filepath.Base.
unfoldable pub last_of : List Text → Option Text
last_of [] = none
last_of (c ∷ []) = some c
last_of (c ∷ d ∷ cs) = last_of (d ∷ cs)

-- What one ".." does to a path: nothing at the root, and at the start of a relative path it stays.
unfoldable pub go_up : Bool → List Text → List Text
unfolding last_of drop_last
go_up rooted done = elim (last_of done) [
  | none ↦ if rooted then [] else codes ".." ∷ []
  | some c ↦ if text_eq c (codes "..") then done ++ codes ".." ∷ [] else drop_last done
]

-- One segment of path.Clean and filepath.Clean.
unfoldable pub enter : Bool → List Text → Text → List Text
unfolding go_up
enter rooted done s =
    if is_empty s || text_eq s (codes ".")
    then done
    else if text_eq s (codes "..")
    then go_up rooted done
    else done ++ s ∷ []

-- path.Clean and filepath.Clean on the segments that follow a clean path.
unfoldable pub clean_from : Bool → List Text → List Text → List Text
unfolding enter
clean_from rooted done [] = done
clean_from rooted done (s ∷ ss) = clean_from rooted (enter rooted done s) ss

-- The components with slashes between them.
unfoldable pub join_slash : List Text → Text
join_slash [] = []
join_slash (c ∷ []) = c
join_slash (c ∷ d ∷ cs) = c ++ b'/' ∷ join_slash (d ∷ cs)

-- filepath.Abs, for the working directory, if the system tells it.
unfoldable pub absolute : Option AbsPath → Text → Option AbsPath
unfolding clean_from segments
absolute cwd s =
    if has_prefix (codes "/") s
    then some (clean_from true [] (segments s))
    else elim cwd [ none ↦ none | some dir ↦ some (clean_from true dir (segments s)) ]

-- filepath.Join of a clean absolute path with the segments of further elements.
unfoldable pub join_under : AbsPath → List Text → AbsPath
unfolding clean_from
join_under root ss = clean_from true root ss

-- path.Join of a clean relative path and the name of the index file.
unfoldable pub join_index : List Text → Text → List Text
unfolding clean_from segments
join_index [] index_file = clean_from (has_prefix (codes "/") index_file) [] (segments index_file)
join_index (c ∷ cs) index_file = clean_from false (c ∷ cs) (segments index_file)

-- filepath.Rel of two clean absolute paths.
unfoldable pub rel : AbsPath → AbsPath → List Text
rel [] target = target
rel (r ∷ root) [] = map (λ _. codes "..") (r ∷ root)
rel (r ∷ root) (t ∷ target) =
    let rest = rel root target in
    if text_eq r t then rest else map (λ _. codes "..") (r ∷ root) ++ t ∷ target

-- The text of a clean relative path.
unfoldable pub rel_text : List Text → Text
unfolding join_slash
rel_text [] = codes "."
rel_text (c ∷ cs) = join_slash (c ∷ cs)

unfoldable pub path_is_inside_root : AbsPath → AbsPath → Bool
unfolding rel rel_text
path_is_inside_root root target =
    let r = rel_text (rel root target) in
    text_eq r (codes ".")
    || (not (has_prefix (codes "/") r)
        && not (text_eq r (codes ".."))
        && not (has_prefix (codes "../") r))

-- The value of a hexadecimal digit.
unfoldable pub unhex : ℕ → Option ℕ
unhex c =
    if between b'0' b'9' c
    then some (c - b'0')
    else if between b'a' b'f' c
    then some (c - b'a' + 10)
    else if between b'A' b'F' c
    then some (c - b'A' + 10)
    else none

-- The byte of two hexadecimal digits.
unfoldable pub unhex_pair : ℕ → ℕ → Option ℕ
unfolding unhex
unhex_pair a b = elim (unhex a) [
  | none ↦ none
  | some high ↦ elim (unhex b) [ none ↦ none | some low ↦ some (high * 16 + low) ]
]

abbrev prepend : Option ℕ → Option Text → Option Text
prepend (some c) (some s) = some (c ∷ s)
prepend _ _ = none

-- url.PathUnescape
unfoldable pub path_unescape : Text → Option Text
unfolding unhex_pair
path_unescape [] = some []
path_unescape (c ∷ []) = if c == b'%' then none else some (c ∷ [])
path_unescape (c ∷ a ∷ []) = if c == b'%' then none else prepend (some c) (path_unescape (a ∷ []))
path_unescape (c ∷ a ∷ b ∷ s) = elim (c == b'%') [
  | true ↦ prepend (unhex_pair a b) (path_unescape s)
  | false ↦ prepend (some c) (path_unescape (a ∷ b ∷ s))
]

pub data PathError : Type 0 where
  bad_escape unsafe_path no_directory : PathError

pub data PathResult : Type 0 where
  path_ok : AbsPath → PathResult
  path_err : PathError → PathResult

-- The loop over the segments finds none that is ".." or has a colon.
unfoldable pub segments_safe : List Text → Bool
segments_safe [] = true
segments_safe (s ∷ ss) = not (text_eq s (codes "..") || contains b':' s) && segments_safe ss

-- strings.HasSuffix(s, "/")
unfoldable pub ends_with_slash : Text → Bool
ends_with_slash [] = false
ends_with_slash (c ∷ []) = c == b'/'
ends_with_slash (c ∷ d ∷ s) = ends_with_slash (d ∷ s)

-- relativePath == ""
abbrev pub is_root : List Text → Bool
is_root [] = true
is_root (c ∷ cs) = false

-- The relative path of a request path that passed the tests, with the index file of a directory.
unfoldable pub relative_path : Text → Text → Bool → List Text
unfolding clean_from segments join_index ends_with_slash
relative_path unescaped index_file append_index =
    let path = clean_from true [] (segments (trim_prefix (codes "/") unescaped)) in
    if append_index && (is_root path || ends_with_slash unescaped)
    then join_index path index_file
    else path

-- The last tests: the target is under the root, and still is when both exist and links are followed.
unfoldable pub check_target : (AbsPath → Option AbsPath) → AbsPath → AbsPath → PathResult
unfolding path_is_inside_root
check_target eval_symlinks root target =
    if not (path_is_inside_root root target)
    then path_err unsafe_path
    else elim (eval_symlinks root) [
      | none ↦ path_ok target
      | some real_root ↦ elim (eval_symlinks target) [
        | none ↦ path_ok target
        | some real_target ↦
            if path_is_inside_root real_root real_target
            then path_ok target
            else path_err unsafe_path
      ]
    ]

unfoldable pub safe_path_under_root :
    Option AbsPath → (AbsPath → Option AbsPath) → Text → Text → Text → Bool → PathResult
unfolding path_unescape segments segments_safe absolute relative_path join_under check_target
safe_path_under_root cwd eval_symlinks root request_path index_file append_index =
    elim (path_unescape (if is_empty request_path then codes "/" else request_path)) [
      | none ↦ path_err bad_escape
      | some unescaped ↦
          if contains b'\\' unescaped
          then path_err unsafe_path
          else if has_prefix (codes "//") unescaped
          then path_err unsafe_path
          else if not (segments_safe (segments unescaped))
          then path_err unsafe_path
          else elim (absolute cwd root) [
            | none ↦ path_err no_directory
            | some root_path ↦
                check_target eval_symlinks root_path
                  (join_under root_path (relative_path unescaped index_file append_index))
          ]
    ]

-- safeJoinUnderRoot, with the segments of its elements.
unfoldable pub safe_join_under_root : Option AbsPath → Text → List Text → PathResult
unfolding absolute join_under path_is_inside_root
safe_join_under_root cwd root elems = elim (absolute cwd root) [
  | none ↦ path_err no_directory
  | some root_path ↦
      if path_is_inside_root root_path (join_under root_path elems)
      then path_ok (join_under root_path elems)
      else path_err unsafe_path
]

-- The path of a request for a file, from the file's path under the root.
unfoldable pub request_uri : Text → List Text → Text
unfolding rel_text join_slash last_of drop_last trim_both
request_uri index_file path =
    if text_eq (rel_text path) index_file then codes "/" else elim (last_of path) [
      | none ↦ b'/' ∷ trim_prefix (codes "/") (rel_text path)
      | some base ↦
          if text_eq base index_file
          then (if is_root (drop_last path)
              then codes "/"
              else b'/' ∷ trim_both (λ c. c == b'/') (join_slash (drop_last path)) ++ b'/' ∷ [])
          else b'/' ∷ trim_prefix (codes "/") (rel_text path)
    ]

-- canonicalRequestURIForFile, for the absolute paths of the root and the file.
unfoldable pub canonical_request_uri_for_file : Text → AbsPath → AbsPath → Option Text
unfolding path_is_inside_root rel request_uri
canonical_request_uri_for_file index_file root target =
    let index = if is_empty index_file then codes "index.html" else index_file in
    if path_is_inside_root root target then some (request_uri index (rel root target)) else none

-- os.Lstat
pub data Stat : Type 0 where
  exists missing unreadable : Stat

pub data ParentResult : Type 0 where
  parent_is : AbsPath → ParentResult
  parent_err out_of_fuel : ParentResult

-- The loop of validateExistingParentSymlinkSafe: up from the path to what is there. `fuel` bounds its rounds.
unfoldable pub existing_parent : (AbsPath → Stat) → ℕ → AbsPath → ParentResult
unfolding drop_last
existing_parent lstat zero path = out_of_fuel
existing_parent lstat (suc fuel) path =
    let next = existing_parent lstat fuel (drop_last path) in
    elim (lstat path) [
      | exists ↦ parent_is path
      | missing ↦ if is_root path then parent_err else next
      | unreadable ↦ parent_err
    ]

-- The checks on the parent that exists: none when it passes.
unfoldable pub check_parent : (AbsPath → Option AbsPath) → AbsPath → ParentResult → Option PathError
unfolding path_is_inside_root
check_parent eval_symlinks real_root (parent_is parent) = elim (eval_symlinks parent) [
  | none ↦ some no_directory
  | some real ↦ if path_is_inside_root real_root real then none else some unsafe_path
]
check_parent eval_symlinks real_root _ = some no_directory

-- validateExistingParentSymlinkSafe
unfoldable pub validate_existing_parent_symlink_safe :
    (AbsPath → Stat) → (AbsPath → Option AbsPath) → AbsPath → AbsPath → Option PathError
unfolding existing_parent check_parent drop_last
validate_existing_parent_symlink_safe lstat eval_symlinks root target = elim (eval_symlinks root) [
  | none ↦ some no_directory
  | some real_root ↦
      check_parent eval_symlinks real_root
        (existing_parent lstat (suc (length (drop_last target))) (drop_last target))
]

-- safeWritableStaticFilePath
unfoldable pub safe_writable_static_file_path :
    Option AbsPath → (AbsPath → Stat) → (AbsPath → Option AbsPath) → Text → Text → Text → PathResult
unfolding safe_path_under_root validate_existing_parent_symlink_safe absolute
safe_writable_static_file_path cwd lstat eval_symlinks root request_path index_file =
    elim (safe_path_under_root cwd eval_symlinks root request_path index_file true) [
      | path_err e ↦ path_err unsafe_path
      | path_ok file_name ↦ elim (absolute cwd root) [
        | none ↦ path_err unsafe_path
        | some root_path ↦
            elim (validate_existing_parent_symlink_safe lstat eval_symlinks root_path file_name) [
              | none ↦ path_ok file_name
              | some e ↦ path_err unsafe_path
            ]
      ]
    ]
