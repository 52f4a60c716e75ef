-- ===== src/Connections/Files/Directories.antt =====
-- What CreateDirectories made, DeleteDirectories takes away.
use sibench.Base.{
  true, false, Option, none, some, List, [], ◌∷◌, ◌≡◌, refl, ◌∙◌, ◌⊎◌, inl, inr, Option-cases,
}
use sibench.Connections.Files.{
  PathStat, missing, directory, no_directory, stat_failed, dir_exists, Tree, create_directory,
  create_directories, delete_loop,
}

module _ {Location Name F : Type 0} (stat : F → Location → PathStat)
    (mkdir : F → Location → Option F) (join : Location → Name → Location)
    (remove : F → Location → Option F)
    (undo : (f f' : F) (p : Location)
      → stat f p ≡ missing
      → mkdir f p ≡ some f'
      → remove f' p ≡ some f) where
  abbrev CleanedAs : Tree Location F → Tree Location F → Type 0
  CleanedAs t t' =
      delete_loop remove t'.dirs_created t'.files ≡ delete_loop remove t.dirs_created t.files

  made_lem :
      (path : Location) (t : Tree Location F) (f : F)
      → stat t.files path ≡ missing
      → mkdir t.files path ≡ some f
      → delete_loop remove (path ∷ t.dirs_created) f ≡ delete_loop remove t.dirs_created t.files
  unfolding delete_loop
  made_lem path t f absent e = rw (undo t.files f path absent e, delete_loop) refl

  dir_exists-missing : (s : PathStat) → dir_exists s ≡ some false → s ≡ missing
  unfolding dir_exists
  dir_exists-missing missing e = refl
  dir_exists-missing directory e = absurd (cc e)
  dir_exists-missing no_directory e = absurd (cc e)
  dir_exists-missing stat_failed e = absurd (cc e)

  create_directory_lem :
      (path : Location) (t : Tree Location F)
      → (create_directory stat mkdir join path t ≡ none)
        ⊎ ((t' : Tree Location F) × (create_directory stat mkdir join path t ≡ some t')
            × CleanedAs t t')
  unfolding create_directory
  create_directory_lem path t = elim (Option-cases (dir_exists (stat t.files path))) [
    | inl failed ↦ inl (rw (failed, create_directory) refl)
    | inr (true, exists) ↦ inr (t, rw (exists, create_directory) refl, refl)
    | inr (false, absent) ↦ elim (Option-cases (mkdir t.files path)) [
      | inl failed ↦ inl (rw (absent, failed, create_directory) refl)
      | inr (f, made) ↦ inr (
        record { dirs_created = path ∷ t.dirs_created; files = f },
        rw (absent, made, create_directory) refl,
        made_lem path t f (dir_exists-missing (stat t.files path) absent) made,
      )
    ]
  ]

  -- Where a directory that was made can be removed: whether CreateDirectories succeeds or fails in
  -- the middle, deleting the directories that it recorded gives what deleting the directories
  -- recorded before would have given.
  pub delete_loop-create_directories :
      (dirs : List Name) (path : Location) (t : Tree Location F)
      → CleanedAs t (create_directories stat mkdir join dirs path t).1
  unfolding create_directories
  delete_loop-create_directories [] path t = refl
  delete_loop-create_directories (d ∷ dirs) path t = elim (create_directory_lem (join path d) t) [
    | inl failed ↦ rw (failed, create_directories) refl
    | inr (t', made, same) ↦
        rw (made, create_directories) (delete_loop-create_directories dirs (join path d) t' ∙ same)
  ]
