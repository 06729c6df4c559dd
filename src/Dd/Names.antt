-- ===== src/Dd/Names.antt =====
-- The flags of src/app/spdk_dd.c, written as a list with commas and read by parse_flags.
use bdev_ubi.Common.{◌≡◌, refl, ap, ◌∙◌, Option, none, some, List, [], ◌∷◌, ◌++◌}
use bdev_ubi.Posix.{FilePath}
use bdev_ubi.Dd.Flags.{
  OpenFlag, append, direct, directory, dsync, noatime, noctty, nofollow, nonblock, sync, rdwr,
  creat, trunc, name_of, known_flags, same_text, find_flag, split, parse_tokens, parse_flags,
}

-- A flag that a user can name.
abbrev pub IsNamed : OpenFlag → Type 0
IsNamed rdwr = ⊥
IsNamed creat = ⊥
IsNamed trunc = ⊥
IsNamed _ = Unit {0}

abbrev pub AllNamed : List OpenFlag → Type 0
AllNamed [] = Unit {0}
AllNamed (f ∷ fs) = IsNamed f × AllNamed fs

-- The names with commas between them.
abbrev pub joined : OpenFlag → List OpenFlag → FilePath
joined f [] = name_of f
joined f (g ∷ gs) = name_of f ++ (44 ∷ joined g gs)

find-name_of : (f : OpenFlag) → IsNamed f → find_flag known_flags (name_of f) ≡ some f
unfolding find_flag same_text
find-name_of append h = refl
find-name_of direct h = refl
find-name_of directory h = refl
find-name_of dsync h = refl
find-name_of noatime h = refl
find-name_of noctty h = refl
find-name_of nofollow h = refl
find-name_of nonblock h = refl
find-name_of sync h = refl
find-name_of rdwr h = elim h [ ]
find-name_of creat h = elim h [ ]
find-name_of trunc h = elim h [ ]

-- A name ends at the comma behind it.
split-name_of :
    (f : OpenFlag) (s : FilePath)
    → IsNamed f
    → split (name_of f ++ (44 ∷ s)) ≡ (name_of f, (split s).0 ∷ (split s).1)
unfolding split
split-name_of append s h = refl
split-name_of direct s h = refl
split-name_of directory s h = refl
split-name_of dsync s h = refl
split-name_of noatime s h = refl
split-name_of noctty s h = refl
split-name_of nofollow s h = refl
split-name_of nonblock s h = refl
split-name_of sync s h = refl
split-name_of rdwr s h = elim h [ ]
split-name_of creat s h = elim h [ ]
split-name_of trunc s h = elim h [ ]

split_last : (f : OpenFlag) → IsNamed f → split (name_of f) ≡ (name_of f, [])
unfolding split
split_last append h = refl
split_last direct h = refl
split_last directory h = refl
split_last dsync h = refl
split_last noatime h = refl
split_last noctty h = refl
split_last nofollow h = refl
split_last nonblock h = refl
split_last sync h = refl
split_last rdwr h = elim h [ ]
split_last creat h = elim h [ ]
split_last trunc h = elim h [ ]

last_token : (f : OpenFlag) → IsNamed f → parse_tokens (name_of f) [] ≡ some (f ∷ [])
unfolding parse_tokens
last_token f h =
    ap (λ (r : Option OpenFlag). elim r [ none ↦ none | some g ↦ some (g ∷ []) ]) (find-name_of f h)

next_token :
    (f : OpenFlag) (fs : List OpenFlag) (next : FilePath) (tokens : List FilePath)
    → IsNamed f
    → parse_tokens next tokens ≡ some fs
    → parse_tokens (name_of f) (next ∷ tokens) ≡ some (f ∷ fs)
unfolding parse_tokens
next_token f fs next tokens h e =
    ap
      (λ (r : Option OpenFlag). elim r [
        | none ↦ none
        | some g ↦ elim (parse_tokens next tokens) [ none ↦ none | some gs ↦ some (g ∷ gs) ]
      ])
      (find-name_of f h)
    ∙ ap (λ (r : Option (List OpenFlag)). elim r [ none ↦ none | some gs ↦ some (f ∷ gs) ]) e

parse-joined :
    (f : OpenFlag) (fs : List OpenFlag)
    → IsNamed f
    → AllNamed fs
    → (parse_tokens (split (joined f fs)).0 (split (joined f fs)).1 ≡ some (f ∷ fs))
      × ((split (joined f fs)).0 ≡ name_of f)
parse-joined f [] h hs = rw (split_last f h) (last_token f h, refl)
parse-joined f (g ∷ gs) h hs =
    let q = parse-joined g gs hs.0 hs.1 in
    rw (split-name_of f (joined g gs) h) (next_token f (g ∷ gs) _ _ h q.0, refl)

-- parse_flags of the names of flags with commas between them gives these flags, in their order, and
-- leaves a string with the first name only: a second parse_flags of the string sees one flag.
pub parse_flags-joined :
    (f : OpenFlag) (fs : List OpenFlag)
    → IsNamed f
    → AllNamed fs
    → (parse_flags (joined f fs) ≡ (some (f ∷ fs), name_of f))
      × (parse_flags (parse_flags (joined f fs)).1 ≡ (some (f ∷ []), name_of f))
unfolding parse_flags
parse_flags-joined f fs h hs =
    let q = parse-joined f fs h hs in
    let r = parse-joined f [] h tt in rw (q.0, q.1, r.0, r.1) (refl, refl)
