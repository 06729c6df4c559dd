-- ===== src/Dd/Flags.antt =====
-- parse_flags of src/app/spdk_dd.c and the flags that dd_open_file adds. A flag that is set is a member
-- of a list, where the code has a bit.
use bdev_ubi.Common.{
  Bool, true, false, ◌&&◌, ◌||◌, Option, none, some, List, [], ◌∷◌, ◌==◌, if◌then◌else◌,
}
use bdev_ubi.Posix.{FilePath, Memory}

-- The flags of open(2) that the program knows.
pub data OpenFlag : Type 0 where
  append direct directory dsync noatime noctty nofollow nonblock sync rdwr creat trunc : OpenFlag

-- The names of g_flags, in ASCII; the last three have none.
abbrev pub name_of : OpenFlag → FilePath
name_of append = 97 ∷ 112 ∷ 112 ∷ 101 ∷ 110 ∷ 100 ∷ []
name_of direct = 100 ∷ 105 ∷ 114 ∷ 101 ∷ 99 ∷ 116 ∷ []
name_of directory = 100 ∷ 105 ∷ 114 ∷ 101 ∷ 99 ∷ 116 ∷ 111 ∷ 114 ∷ 121 ∷ []
name_of dsync = 100 ∷ 115 ∷ 121 ∷ 110 ∷ 99 ∷ []
name_of noatime = 110 ∷ 111 ∷ 97 ∷ 116 ∷ 105 ∷ 109 ∷ 101 ∷ []
name_of noctty = 110 ∷ 111 ∷ 99 ∷ 116 ∷ 116 ∷ 121 ∷ []
name_of nofollow = 110 ∷ 111 ∷ 102 ∷ 111 ∷ 108 ∷ 108 ∷ 111 ∷ 119 ∷ []
name_of nonblock = 110 ∷ 111 ∷ 110 ∷ 98 ∷ 108 ∷ 111 ∷ 99 ∷ 107 ∷ []
name_of sync = 115 ∷ 121 ∷ 110 ∷ 99 ∷ []
name_of rdwr = []
name_of creat = []
name_of trunc = []

-- g_flags, in its order.
abbrev pub known_flags : List OpenFlag
known_flags =
    append ∷ direct ∷ directory ∷ dsync ∷ noatime ∷ noctty ∷ nofollow ∷ nonblock ∷ sync ∷ []

-- strcmp
unfoldable pub same_text : FilePath → FilePath → Bool
same_text [] [] = true
same_text [] (d ∷ t) = false
same_text (c ∷ s) [] = false
same_text (c ∷ s) (d ∷ t) = let rest = same_text s t in (c == d) && rest

unfoldable pub find_flag : List OpenFlag → FilePath → Option OpenFlag
unfolding same_text
find_flag [] token = none
find_flag (f ∷ fs) token =
    let rest = find_flag fs token in if same_text token (name_of f) then some f else rest

-- strsep, again and again: the first token and the others.
unfoldable pub split : FilePath → FilePath × List FilePath
split [] = ([], [])
split (c ∷ s) =
    let rest = split s in if c == 44 then ([], rest.0 ∷ rest.1) else (c ∷ rest.0, rest.1)

-- The loop of parse_flags, none at an unknown flag.
unfoldable pub parse_tokens : FilePath → List FilePath → Option (List OpenFlag)
unfolding find_flag
parse_tokens token [] = elim (find_flag known_flags token) [ none ↦ none | some f ↦ some (f ∷ []) ]
parse_tokens token (next ∷ tokens) =
    let rest = parse_tokens next tokens in
    elim (find_flag known_flags token) [
      | none ↦ none
      | some f ↦ elim rest [ none ↦ none | some fs ↦ some (f ∷ fs) ]
    ]

-- parse_flags of a string: strsep puts NULs into it, so that only its first token is left.
unfoldable pub parse_flags : FilePath → Option (List OpenFlag) × FilePath
unfolding split parse_tokens
parse_flags s = let ts = split s in (parse_tokens ts.0 ts.1, ts.0)

abbrev is_same : OpenFlag → OpenFlag → Bool
is_same append append = true
is_same directory directory = true
is_same direct direct = true
is_same trunc trunc = true
is_same _ _ = false

-- `flags & f`, for O_APPEND, O_DIRECTORY, O_DIRECT and O_TRUNC.
unfoldable pub has_flag : OpenFlag → List OpenFlag → Bool
has_flag f [] = false
has_flag f (g ∷ gs) = is_same f g || has_flag f gs

-- The flags of dd_open_file's open.
unfoldable pub open_flags : Bool → List OpenFlag → List OpenFlag
unfolding has_flag
open_flags true flags = rdwr ∷ flags
open_flags false flags =
    let with_creat = if has_flag directory flags then rdwr ∷ flags else creat ∷ (rdwr ∷ flags) in
    if has_flag append flags then with_creat else trunc ∷ with_creat

-- What open(2) leaves of the output, which O_TRUNC empties. The input is never opened with O_TRUNC.
unfoldable pub emptied : List OpenFlag → Memory → Memory
emptied flags disk = if has_flag trunc flags then (λ x. 0) else disk

-- The output after these calls of open(2), newest first.
unfoldable pub disk_after : List (List OpenFlag) → Memory → Memory
disk_after [] disk = disk
disk_after (flags ∷ opened) disk = emptied flags (disk_after opened disk)

-- Whether a file was opened with O_APPEND: then the kernel takes no notice of the position of a write.
unfoldable pub appends : List (List OpenFlag) → Bool
unfolding has_flag
appends [] = false
appends (flags ∷ opened) = has_flag append flags || appends opened
