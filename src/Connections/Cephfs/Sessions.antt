-- ===== src/Connections/Cephfs/Sessions.antt =====
-- What a session of the manager on CephFS (src/sibench/cephfs_connection.go) leaves of the mount and
-- of the file system.
use sibench.Base.{
  Bool-cases, ℕ, suc, ◌+◌, ◌<◌, ◌^◌, Bool, true, false, Option, some, List, [], ◌≡◌, refl, ap, ◌∙◌,
  ◌⊎◌, inl, inr, arith, if◌then◌else◌,
}
use sibench.Base.{◌==◌, ◌-◌}
use sibench.Base.Bits.{u64, u64_mod}
use sibench.Mounts.{
  MountState, init, mounting, mounted, unmounting, MountInfo, acquire, mount_complete, release,
  unmount_complete,
}
use sibench.Connections.Files.{
  PathStat, missing, Tree, create_directories, delete_loop, delete_directories,
}
use sibench.Connections.Files.Directories.{delete_loop-create_directories}
use sibench.Connections.Cephfs.{
  Mounting, returned, worker_connect, worker_close, Cephfs, close_with, manager_connect,
  manager_close,
}

abbrev pub Settles : MountState → ℕ → Type 0
Settles init n = n ≡ 0
Settles mounted n = (0 < n) × (suc n < 2 ^ 64)
Settles mounting n = true ≡ false
Settles unmounting n = true ≡ false

-- Nobody is in the middle of a mount: there is none, or it is in use.
abbrev pub IsSettled : MountInfo → Type 0
IsSettled mi = Settles mi.state mi.count

-- What a connect comes to: it fails and leaves the mount as it was, or succeeds, and a close after
-- it leaves the mount as it was.
abbrev Connects : Mounting → MountInfo → Type 0
Connects s mi =
    (worker_connect s mi ≡ returned false mi)
    ⊎ ((mi' : MountInfo) × (worker_connect s mi ≡ returned true mi')
        × (worker_close mi' ≡ returned true mi))

first_cases :
    (b : Bool)
    → (returned b (mount_complete b (record { state = mounting; count = 1 }))
        ≡ returned false (record { state = init; count = 0 }))
      ⊎ ((mi' : MountInfo) × (returned b (mount_complete b (record { state = mounting; count = 1 }))
            ≡ returned true mi')
          × (worker_close mi' ≡ returned true (record { state = init; count = 0 })))
unfolding mount_complete worker_close release unmount_complete
first_cases false = inl refl
first_cases true = inr (_, refl, refl)

next_close :
    (n : ℕ)
    → 0 < n
    → suc n < 2 ^ 64
    → worker_close (record { state = mounted; count = u64 (n + 1) })
      ≡ returned true (record { state = mounted; count = n })
unfolding worker_close release
next_close n used low =
    let less : u64 (u64 (n + 1) + u64_mod - 1) ≡ n = omega arith in
    let more : (n == 0) ≡ false = ground (arith, used) in
    rw (less, worker_close) (rw (more, if◌then◌else◌) refl)

worker_connect_cases :
    (s : Mounting) (st : MountState) (n : ℕ)
    → Settles st n
    → Connects s (record { state = st; count = n })
unfolding worker_connect acquire
worker_connect_cases s init n h = rw h (first_cases _)
worker_connect_cases s mounted n (used, low) = inr (_, refl, next_close n used low)
worker_connect_cases s mounting n h = absurd (cc h)
worker_connect_cases s unmounting n h = absurd (cc h)

module _ {Location Name F : Type 0} (stat : F → Location → PathStat)
    (mkdir : F → Location → Option F) (join : Location → Name → Location)
    (remove : F → Location → Option F)
    (undo : (f f' : F) (p : Location)
      → stat f p ≡ missing
      → mkdir f p ≡ some f'
      → remove f' p ≡ some f) where
  close_with_lem :
      (ok : Bool) (c : Cephfs Location F) (mi : MountInfo)
      → worker_close c.mount ≡ returned true mi
      → close_with ok c ≡ returned ok (record c { mount = mi })
  unfolding close_with
  close_with_lem ok c mi e = rw (e, close_with) refl

  -- The tree has what the connection made, which deleting takes away.
  abbrev Restores : F → Tree Location F → Type 0
  Restores f t = delete_loop remove t.dirs_created t.files ≡ (true, f)

  manager_connect_lem :
      (s : Mounting) (dirs : List Name) (root : Location) (c : Cephfs Location F) (f : F)
      → IsSettled c.mount
      → Restores f c.tree
      → (ok : Bool) × (tree : Tree Location F) × (manager_connect stat mkdir join s dirs root c
          ≡ returned ok (record { mount = c.mount; tree = tree }))
        × Restores f tree
  unfolding manager_connect
  manager_connect_lem s dirs root c f h r =
      elim (worker_connect_cases s c.mount.state c.mount.count h) [
        | inl failed ↦ (false, c.tree, rw (failed, manager_connect) refl, r)
        | inr (mi, connected, closed) ↦
            let made = create_directories stat mkdir join dirs root c.tree in
            (
              made.0,
              made.1,
              rw (connected, manager_connect)
                  (close_with_lem made.0 (record { mount = mi; tree = made.1 }) _ closed),
              delete_loop-create_directories stat mkdir join remove undo dirs root c.tree ∙ r,
            )
      ]

  manager_close_lem :
      (s : Mounting) (cleanup : Bool) (c : Cephfs Location F) (f : F)
      → IsSettled c.mount
      → Restores f c.tree
      → (ok : Bool) × (tree : Tree Location F) × (manager_close remove s cleanup c
          ≡ returned ok (record { mount = c.mount; tree = tree }))
        × (ok ≡ true → tree.files ≡ (if cleanup then f else c.tree.files))
  unfolding manager_close delete_directories
  manager_close_lem s cleanup c f h r =
      elim (worker_connect_cases s c.mount.state c.mount.count h) [
        | inl failed ↦ (false, c.tree, rw (failed, manager_close) refl, λ wrong. absurd (cc wrong))
        | inr (mi, connected, closed) ↦
            let cleaned = (delete_directories remove c.tree).1 in
            let left = if cleanup then cleaned else c.tree in
            (
              true,
              left,
              rw (connected, manager_close)
                  (close_with_lem true (record { mount = mi; tree = left }) _ closed),
              λ _. elim (Bool-cases cleanup) [
                | inl wanted ↦ rw (wanted, if◌then◌else◌) (ap (λ x. x.1) r)
                | inr unwanted ↦ rw (unwanted, if◌then◌else◌) refl
              ],
            )
      ]

  -- While no other caller is in the middle of a mount, and where a directory that was made can be
  -- removed: the manager's connect and its close after it return, without waiting or a panic, and
  -- leave the mount as it was, whatever fails and whether or not the close is to clean up. A close
  -- that returns no error has left the file system as it was before the connect, however many of the
  -- directories that could make, if it is to clean up, and as the connect left it if it is not.
  pub manager_close-manager_connect :
      (s s' : Mounting) (cleanup : Bool) (dirs : List Name) (root : Location) (mi : MountInfo)
      (f : F)
      → IsSettled mi
      → (ok ok' : Bool) × (c c' : Cephfs Location F) × (manager_connect stat mkdir join s dirs root
            (record { mount = mi; tree = record { dirs_created = []; files = f } })
          ≡ returned ok c)
        × (manager_close remove s' cleanup c ≡ returned ok' c')
        × (c.mount ≡ mi)
        × (c'.mount ≡ mi)
        × (ok' ≡ true → c'.tree.files ≡ (if cleanup then f else c.tree.files))
  unfolding delete_loop
  manager_close-manager_connect s s' cleanup dirs root mi f h =
      let c : Cephfs Location F = record {
        mount = mi;
        tree = record { dirs_created = []; files = f };
      } in
      let (ok, tree, connected, made) = manager_connect_lem s dirs root c f h refl in
      let c' : Cephfs Location F = record { mount = mi; tree = tree } in
      let (ok', tree', closed, cleaned) = manager_close_lem s' cleanup c' f h made in
      (ok, ok', c', record { mount = mi; tree = tree' }, connected, closed, refl, refl, cleaned)
