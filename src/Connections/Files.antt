-- ===== src/Connections/Files.antt =====
-- The connection to files below a directory (src/sibench/file_connection_base.go). The calls of the
-- operating system and of the file's path are parameters.
pub mod Directories
pub mod Objects
use sibench.Base.{
  ℕ, zero, suc, ◌+◌, ◌-◌, ◌==◌, leb, if◌then◌else◌, Bool, true, false, Option, none, some, List, [],
  ◌∷◌, ◌++◌, length, take, drop,
}

-- What `os.Stat` says of a path: there is nothing, there is a directory, there is something else,
-- or another error.
pub data PathStat : Type 0 where
  missing directory no_directory stat_failed : PathStat

-- `dirExists`, with none for an error.
unfoldable pub dir_exists : PathStat → Option Bool
dir_exists missing = some false
dir_exists directory = some true
dir_exists no_directory = none
dir_exists stat_failed = none

-- The directories that the connection has created, the last one first, and the file system.
pub record Tree (Location F : Type 0) : Type 0 where
  pub dirs_created : List Location
  pub files : F

module _ {Location Name F : Type 0} (stat : F → Location → PathStat)
    (mkdir : F → Location → Option F) (join : Location → Name → Location) where
  -- The turn of the loop of `CreateDirectories` for the given path, with none for an error.
  unfoldable pub create_directory : Location → Tree Location F → Option (Tree Location F)
  create_directory path t = elim (dir_exists (stat t.files path)) [
    | none ↦ none
    | some true ↦ some t
    | some false ↦ elim (mkdir t.files path) [
      | none ↦ none
      | some files ↦ some (record { dirs_created = path ∷ t.dirs_created; files = files })
    ]
  ]

  -- `CreateDirectories` from the given path on; true is for no error.
  unfoldable pub create_directories :
      List Name → Location → Tree Location F → Bool × Tree Location F
  create_directories [] path t = (true, t)
  create_directories (d ∷ dirs) path t = elim (create_directory (join path d) t) [
    | none ↦ (false, t)
    | some t' ↦ create_directories dirs (join path d) t'
  ]

module _ {Location F : Type 0} (remove : F → Location → Option F) where
  -- `DeleteDirectories`, on the directories that are given.
  unfoldable pub delete_loop : List Location → F → Bool × F
  delete_loop [] files = (true, files)
  delete_loop (d ∷ dirs) files = elim (remove files d) [
    | none ↦ (false, files)
    | some files' ↦ delete_loop dirs files'
  ]

  unfoldable pub delete_directories : Tree Location F → Bool × Tree Location F
  delete_directories t =
      let (ok, files) = delete_loop t.dirs_created t.files in
      (ok, record { dirs_created = t.dirs_created; files = files })

-- What a Write does to the contents: it writes so many bytes with no error or as a short write, or
-- fails.
pub data FileWrite : Type 0 where
  wrote_bytes short_write : ℕ → List ℕ → FileWrite
  write_failed : List ℕ → FileWrite

-- The contents of the file after `PutObject`, whether it returns an error, panics, or is not done.
pub data Filed : Type 0 where
  filed not_filed filing_crashed filing_endless : List ℕ → Filed

module _ (write : List ℕ → List ℕ → FileWrite) where
  -- The loop of `PutObject`, with at most `n` rounds left.
  unfoldable pub put_file : ℕ → List ℕ → List ℕ → Filed
  put_file zero contents buffer =
      if length buffer == 0 then filed contents else filing_endless contents
  put_file (suc n) contents buffer =
      if length buffer == 0 then filed contents else elim (write contents buffer) [
        | wrote_bytes k contents' ↦
            let rest = put_file n contents' (drop k buffer) in
            if leb k (length buffer) then rest else filing_crashed contents'
        | short_write k contents' ↦
            let rest = put_file n contents' (drop k buffer) in
            if leb k (length buffer) then rest else filing_crashed contents'
        | write_failed contents' ↦ not_filed contents'
      ]

-- What the buffer holds after `GetObject`, or the error.
pub data FileRead : Type 0 where
  read_all : List ℕ → FileRead
  wrong_size read_failed read_endless : FileRead

module _ (read : List ℕ → ℕ → ℕ → Option (List ℕ)) where
  -- The loop of `GetObject`, with at most `n` rounds left; `got` is what has been read, so its length
  -- is `start`.
  unfoldable pub read_loop : ℕ → List ℕ → ℕ → List ℕ → FileRead
  read_loop zero contents remaining got = if remaining == 0 then read_all got else read_endless
  read_loop (suc n) contents remaining got =
      if remaining == 0 then read_all got else elim (read contents (length got) remaining) [
        | none ↦ read_failed
        | some bytes ↦ read_loop n contents (remaining - length bytes) (got ++ bytes)
      ]

  -- `GetObject` into a buffer of the given capacity, from a file that could be opened. A round for
  -- each byte is enough where each read gives one byte or more.
  unfoldable pub get_file : ℕ → List ℕ → FileRead
  get_file capacity contents =
      if capacity == length contents
      then read_loop capacity contents (length contents) []
      else wrong_size
