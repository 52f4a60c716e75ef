-- ===== src/Connections/Cephfs.antt =====
-- The connection to CephFS (src/sibench/cephfs_connection.go): files below a mount that the
-- connections of the process share. One caller at a time is modelled; a caller that has to wait for
-- another one's mount waits.
pub mod Sessions
use sibench.Base.{Bool, true, false, Option, none, some, List, if◌then◌else◌}
use sibench.Mounts.{
  MountInfo, must_mount, is_ready, must_wait, acquire, mount_complete, release, unmount_complete,
}
use sibench.Connections.Files.{PathStat, Tree, create_directories, delete_directories}

-- What the system makes of the steps to a mount: whether the mount point is there or can be made,
-- whether the name of the monitor is found, and whether the mount succeeds.
pub record Mounting : Type 0 where
  pub has_point : Bool
  pub has_address : Bool
  pub mounts : Bool

-- What a call comes to, with true for no error: it returns, waits for another caller, or panics.
pub data Connecting (A : Type 0) : Type 0 where
  returned : Bool → A → Connecting A
  waits panics : Connecting A

-- `WorkerConnect`
unfoldable pub worker_connect : Mounting → MountInfo → Connecting MountInfo
worker_connect s mi =
    let (turn, mi') = acquire mi in
    elim turn [
      | must_mount ↦
          let mounted =
            if s.has_point then (if s.has_address then s.mounts else false) else false in
          returned mounted (mount_complete mounted mi')
      | is_ready ↦ returned true mi'
      | must_wait ↦ waits
    ]

-- `WorkerClose`
unfoldable pub worker_close : MountInfo → Connecting MountInfo
worker_close mi = elim (release mi) [
  | none ↦ panics
  | some (last, mi') ↦
      if last
      then elim (unmount_complete mi') [ none ↦ panics | some mi'' ↦ returned true mi'' ]
      else returned true mi'
]

-- A connection to the file system `F`, with the mount that it uses.
pub record Cephfs (Location F : Type 0) : Type 0 where
  pub mount : MountInfo
  pub tree : Tree Location F

module _ {Location F : Type 0} where
  -- `WorkerClose` at the end of a call that is to return `ok`.
  unfoldable pub close_with : Bool → Cephfs Location F → Connecting (Cephfs Location F)
  close_with ok c = elim (worker_close c.mount) [
    | returned closed mi ↦ returned ok (record c { mount = mi })
    | waits ↦ waits
    | panics ↦ panics
  ]

-- `ManagerConnect`. `WorkerClose` has no error of its own.
module _ {Location Name F : Type 0} (stat : F → Location → PathStat)
    (mkdir : F → Location → Option F) (join : Location → Name → Location) where
  unfoldable pub manager_connect :
      Mounting → List Name → Location → Cephfs Location F → Connecting (Cephfs Location F)
  manager_connect s dirs root c = elim (worker_connect s c.mount) [
    | returned connected mi ↦
        let (ok, tree) = create_directories stat mkdir join dirs root c.tree in
        if connected
        then close_with ok (record { mount = mi; tree = tree })
        else returned false (record c { mount = mi })
    | waits ↦ waits
    | panics ↦ panics
  ]

-- `ManagerClose`. Where DeleteDirectories fails, it returns what `WorkerClose` returned, which is
-- no error.
module _ {Location F : Type 0} (remove : F → Location → Option F) where
  unfoldable pub manager_close :
      Mounting → Bool → Cephfs Location F → Connecting (Cephfs Location F)
  manager_close s cleanup c = elim (worker_connect s c.mount) [
    | returned connected mi ↦
        let (ok, cleaned) = delete_directories remove c.tree in
        let tree = if cleanup then cleaned else c.tree in
        if connected
        then close_with true (record { mount = mi; tree = tree })
        else returned false (record c { mount = mi })
    | waits ↦ waits
    | panics ↦ panics
  ]
