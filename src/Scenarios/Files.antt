-- ===== src/Scenarios/Files.antt =====
-- A file that is written one byte at a time and read two at a time, and directories with numbers
-- as paths on a CephFS that two other connections use.
use sibench.Base.{
  ℕ, ◌+◌, ◌*◌, ◌==◌, ◌<◌, ◌≤◌, min, if◌then◌else◌, Bool, true, false, Option, none, some, List, [],
  ◌∷◌, ◌++◌, length, take, ◌≡◌, refl, ap, inr, arith, ==_self,
}
use mathlib.Core.Path.{subst}
use sibench.Connections.S3.{Gateway, no_such_bucket, has_client, bucket_exists}
use sibench.Connections.S3.Buckets.{was_deleted, session, fresh, session_deletes}
use sibench.Mounts.{MountInfo, mounted}
use sibench.Connections.Block.Parts.{part}
use sibench.Connections.Files.{
  PathStat, missing, directory, FileWrite, short_write, filed, put_file, read_all, wrong_size,
  get_file,
}
use sibench.Connections.Files.Objects.{get_file-put_file}
use sibench.Connections.Cephfs.{Mounting, Cephfs, returned, manager_connect, manager_close}
use sibench.Connections.Cephfs.Sessions.{manager_close-manager_connect}

abbrev write_one : List ℕ → List ℕ → FileWrite
write_one contents buffer = short_write 1 (contents ++ take 1 buffer)

abbrev read_two : List ℕ → ℕ → ℕ → Option (List ℕ)
read_two contents p n = some (part p (min 2 n) contents)

reads_two :
    (contents : List ℕ) (p n : ℕ)
    → 0 < n
    → p + n ≤ length contents
    → (k : ℕ) × (0 < k) × (k ≤ n) × (read_two contents p n ≡ some (part p k contents))
reads_two contents p n h e = (min 2 n, omega arith, omega arith, refl)

get_file-put_file_example :
    (contents : List ℕ) × (put_file write_one 5 [] (7 ∷ 8 ∷ 9 ∷ []) ≡ filed contents)
    × ((capacity : ℕ)
        → get_file read_two capacity contents
          ≡ (if capacity == 3 then read_all (7 ∷ 8 ∷ 9 ∷ []) else wrong_size))
get_file-put_file_example =
    get_file-put_file read_two reads_two write_one
      (λ contents buffer h. (1, omega arith, h, inr refl)) 5 (7 ∷ 8 ∷ 9 ∷ []) (omega arith)

-- The file system is the list of its directories.
abbrev has_path : ℕ → List ℕ → Bool
has_path p [] = false
has_path p (q ∷ files) = let rest = has_path p files in if q == p then true else rest

abbrev stat_of : List ℕ → ℕ → PathStat
stat_of files p = if has_path p files then directory else missing

abbrev make_in : List ℕ → ℕ → Option (List ℕ)
make_in files p = some (p ∷ files)

abbrev remove_in : List ℕ → ℕ → Option (List ℕ)
remove_in [] p = none
remove_in (q ∷ files) p =
    let rest = remove_in files p in
    if q == p then some files else elim rest [ none ↦ none | some files' ↦ some (q ∷ files') ]

undo_in :
    (files files' : List ℕ) (p : ℕ)
    → stat_of files p ≡ missing
    → make_in files p ≡ some files'
    → remove_in files' p ≡ some files
undo_in files files' p absent made =
    subst (λ fs. remove_in fs p ≡ some files) (ap (λ o. elim o [ none ↦ [] | some fs ↦ fs ]) made)
      (rw (==_self p, remove_in, if◌then◌else◌) refl)

abbrev mounts_well : Mounting
mounts_well = record { has_point = true; has_address = true; mounts = true }

abbrev shared : MountInfo
shared = record { state = mounted; count = 2 }

manager_close-manager_connect_example :
    (ok ok' : Bool) × (c c' : Cephfs ℕ (List ℕ)) × (manager_connect stat_of make_in
        (λ p n. p * 10 + n)
        mounts_well
        (3 ∷ 4 ∷ 5 ∷ [])
        1
        (record { mount = shared; tree = record { dirs_created = []; files = 1 ∷ 13 ∷ [] } })
      ≡ returned ok c)
    × (manager_close remove_in mounts_well true c ≡ returned ok' c')
    × (c.mount ≡ shared)
    × (c'.mount ≡ shared)
    × (ok' ≡ true → c'.tree.files ≡ 1 ∷ 13 ∷ [])
manager_close-manager_connect_example =
    manager_close-manager_connect stat_of make_in (λ p n. p * 10 + n) remove_in undo_in mounts_well
      mounts_well true (3 ∷ 4 ∷ 5 ∷ []) 1 shared (1 ∷ 13 ∷ []) (omega arith, omega arith)

-- An S3 gateway without the bucket.
abbrev gateway : Gateway
gateway = record { has_session = true; head = no_such_bucket; creates = true; deletes = true }

session_deletes_example :
    was_deleted (session gateway gateway true (fresh "access" "secret")).calls ≡ true
unfolding has_client bucket_exists
session_deletes_example = session_deletes gateway gateway true "access" "secret"
