-- ===== src/Correlation/Paths.antt =====
-- What backend/app/correlation/rules.py takes of Python's `str` and `ntpath`, and its `_path`,
-- `_basename`, `_full_path` and `_name`.
use mathlib.Core.List.{reverse}
use mathlib.Core.Option
use dfir_investigation_workb.Json.{Value, string}
use dfir_investigation_workb.Prelude.{
  Bool, List, Option, Text, [], drop, false, if◌then◌else◌, leb, lit, map, none, not, some, take,
  text_eq, true, ℕ, ◌&&◌, ◌++◌, ◌-◌, ◌==◌, ◌||◌, ◌∷◌,
}

-- `str.isspace` of one character
unfoldable pub is_space : ℕ → Bool
is_space c =
    (leb 9 c && leb c 13)
    || (leb 28 c && leb c 32)
    || (c == 0x85)
    || (c == 0xa0)
    || (c == 0x1680)
    || (leb 0x2000 c && leb c 0x200a)
    || (c == 0x2028)
    || (c == 0x2029)
    || (c == 0x202f)
    || (c == 0x205f)
    || (c == 0x3000)

unfoldable pub strip_left : Text → Text
strip_left [] = []
strip_left (c ∷ cs) = if is_space c then strip_left cs else c ∷ cs

-- `text.strip()`
unfoldable pub strip : Text → Text
unfolding strip_left is_space
strip t = reverse (strip_left (reverse (strip_left t)))

-- `text.replace("/", "\\")`
unfoldable pub to_backslashes : Text → Text
to_backslashes [] = []
to_backslashes (c ∷ cs) = (if c == b'/' then b'\\' else c) ∷ to_backslashes cs

-- `ntpath.isabs`: a leading backslash, or `:\` behind the first character
unfoldable pub is_absolute : Text → Bool
is_absolute [] = false
is_absolute (a ∷ []) = a == b'\\'
is_absolute (a ∷ b ∷ []) = a == b'\\'
is_absolute (a ∷ b ∷ c ∷ rest) = (a == b'\\') || ((b == b':') && (c == b'\\'))

-- the text up to the next backslash, and what follows from there on
unfoldable pub to_separator : Text → Text × Text
to_separator [] = ([], [])
to_separator (c ∷ cs) =
    let (a, b) = to_separator cs in if c == b'\\' then ([], c ∷ cs) else (c ∷ a, b)

-- drive, root and path: the three parts of `ntpath.splitroot`
abbrev pub Parts : Type 0
Parts = Text × Text × Text

-- behind the server of a UNC path: the share, which belongs to the drive
unfoldable pub split_share : Text → Text × Text → Parts
split_share drive (share, []) = (drive ++ share, [], [])
split_share drive (share, s ∷ path) = (drive ++ share, s ∷ [], path)

unfoldable pub split_server : Text → Text × Text → Parts
unfolding split_share to_separator
split_server start (server, []) = (start ++ server, [], [])
split_server start (server, s ∷ rest) =
    split_share (start ++ (server ++ s ∷ [])) (to_separator rest)

-- `upper` as far as `\\\\?\\UNC\\` asks for it
unfoldable pub ascii_upper : ℕ → ℕ
ascii_upper c = if leb b'a' c && leb c b'z' then c - 32 else c

-- behind a drive letter and its colon
unfoldable pub split_drive : Text → Text → Parts
split_drive drive [] = (drive, [], [])
split_drive drive (c ∷ cs) = if c == b'\\' then (drive, c ∷ [], cs) else (drive, [], c ∷ cs)

-- `splitroot` of a text with no forward slash
unfoldable pub split_root : Text → Parts
unfolding split_server split_drive ascii_upper
split_root [] = ([], [], [])
split_root (a ∷ []) = if a == b'\\' then ([], a ∷ [], []) else ([], [], a ∷ [])
split_root (a ∷ b ∷ rest) =
    if a == b'\\'
    then if b == b'\\'
      then if text_eq (map ascii_upper (take 8 (a ∷ b ∷ rest))) (lit "\\\\?\\UNC\\")
        then split_server (take 8 (a ∷ b ∷ rest)) (to_separator (drop 8 (a ∷ b ∷ rest)))
        else split_server (a ∷ b ∷ []) (to_separator rest)
      else ([], a ∷ [], b ∷ rest)
    else if b == b':'
    then split_drive (a ∷ b ∷ []) rest
    else ([], [], a ∷ b ∷ rest)

-- The last part of a path, behind its drive and root: `ntpath.basename`.
unfoldable pub after_last : Text → Text → Text
after_last last [] = last
after_last last (c ∷ cs) = if c == b'\\' then after_last cs cs else after_last last cs

unfoldable pub basename : Text → Text
unfolding after_last split_root
basename p = let path = (split_root p).2 in after_last path path

abbrev pub is_empty_text : Text → Bool
is_empty_text [] = true
is_empty_text (c ∷ cs) = false

abbrev pub no_components : List Text → Bool
no_components [] = true
no_components (c ∷ cs) = false

abbrev add_char : Bool → ℕ → List Text → List Text
add_char true c comps = [] ∷ comps
add_char false c [] = (c ∷ []) ∷ []
add_char false c (comp ∷ comps) = (c ∷ comp) ∷ comps

-- `path.split("\\")`
unfoldable pub components : Text → List Text
components [] = [] ∷ []
components (c ∷ cs) = add_char (c == b'\\') c (components cs)

-- The components that `normpath` keeps, the last one first; `..` takes back the component before
-- it, and is dropped behind a root.
unfoldable pub keep_component : Bool → List Text → Text → List Text
keep_component rooted [] comp =
    if is_empty_text comp || text_eq comp (lit ".")
    then []
    else if text_eq comp (lit "..") && rooted
    then []
    else comp ∷ []
keep_component rooted (top ∷ kept) comp =
    if is_empty_text comp || text_eq comp (lit ".")
    then top ∷ kept
    else if text_eq comp (lit "..") && not (text_eq top (lit ".."))
    then kept
    else comp ∷ top ∷ kept

unfoldable pub normal_components : Bool → List Text → List Text → List Text
unfolding keep_component
normal_components rooted kept [] = reverse kept
normal_components rooted kept (comp ∷ rest) =
    normal_components rooted (keep_component rooted kept comp) rest

-- `"\\".join(comps)`
unfoldable pub join_components : List Text → Text
join_components [] = []
join_components (a ∷ []) = a
join_components (a ∷ b ∷ rest) = a ++ (b'\\' ∷ join_components (b ∷ rest))

-- `ntpath.normpath` of a text with no forward slash
unfoldable pub normpath : Text → Text
unfolding split_root normal_components components join_components
normpath p =
    let (drive, root, path) = split_root p in
    let comps = normal_components (not (is_empty_text root)) [] (components path) in
    if is_empty_text (drive ++ root) && no_components comps
    then lit "."
    else (drive ++ root) ++ join_components comps

-- `casefold` is Python's, by the Unicode tables.
module _ (casefold : Text → Text) where
  -- the value of a text that is not blank, stripped and with backslashes
  unfoldable pub cleaned : Value → Option Text
  unfolding strip to_backslashes
  cleaned (string t) = if is_empty_text (strip t) then none else some (to_backslashes (strip t))
  cleaned _ = none

  -- `_path`
  unfoldable pub path_of : Value → Option Text
  unfolding cleaned normpath
  path_of v = Option.map (λ (t : Text). casefold (normpath t)) (cleaned v)

  -- `_name`
  unfoldable pub name_of : Value → Option Text
  unfolding cleaned basename
  name_of v = Option.map (λ (t : Text). casefold (basename t)) (cleaned v)

  -- `_basename`: an empty path has none
  unfoldable pub basename_of : Value → Option Text
  unfolding path_of basename
  basename_of v = elim (path_of v) [
    | none ↦ none
    | some p ↦ if is_empty_text p then none else some (basename p)
  ]

  -- `_full_path`
  unfoldable pub full_path_of : Value → Option Text
  unfolding path_of is_absolute
  full_path_of v = elim (path_of v) [
    | none ↦ none
    | some p ↦ if is_absolute p then some p else none
  ]
