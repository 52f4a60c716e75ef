-- ===== src/Mounts.antt =====
-- The mount manager (src/sibench/mount_manager.go), which lets the connections of a process share
-- mounts: one of them mounts, the others wait for it, and the last one to leave unmounts.
pub mod Clients
use sibench.Base.{
  ℕ, zero, suc, ◌+◌, ◌-◌, ◌==◌, if◌then◌else◌, Bool, true, false, Option, none, some, List, [], ◌∷◌,
  ◌%◌, ◌^◌,
}
use sibench.Base.Bits.{u64, u64_mod}

pub data MountState : Type 0 where
  init mounting mounted unmounting : MountState

-- `mountInfo`; the condition variable is its waiting callers, which are not part of the state.
pub record MountInfo : Type 0 where
  pub state : MountState
  pub count : ℕ

-- The table of mounts by name, and `getMountInfo`, which makes an entry for a new name. Names are
-- numbered.
unfoldable pub get_mount_info : ℕ → List (ℕ × MountInfo) → MountInfo × List (ℕ × MountInfo)
get_mount_info point [] =
    let fresh : MountInfo = record { state = init; count = 0 } in (fresh, (point, fresh) ∷ [])
get_mount_info point ((name, info) ∷ mounts) =
    let rest = get_mount_info point mounts in
    if name == point then (info, (name, info) ∷ mounts) else (rest.0, (name, info) ∷ rest.1)

-- `mi.count++` and `mi.count--` on a machine word.
abbrev up : ℕ → ℕ
up n = u64 (n + 1)

abbrev pub down : ℕ → ℕ
down n = u64 (n + u64_mod - 1)

-- What one turn of the loop of `Acquire` comes to: to return true, to return false, or to wait for
-- a broadcast and turn again.
pub data Turn : Type 0 where
  must_mount is_ready must_wait : Turn

unfoldable pub acquire : MountInfo → Turn × MountInfo
acquire mi = elim mi.state [
  | init ↦ (must_mount, record { state = mounting; count = up mi.count })
  | mounted ↦ (is_ready, record { state = mounted; count = up mi.count })
  | mounting ↦ (must_wait, mi)
  | unmounting ↦ (must_wait, mi)
]

-- `MountComplete`
unfoldable pub mount_complete : Bool → MountInfo → MountInfo
mount_complete true mi = record mi { state = mounted }
mount_complete false mi = record { state = init; count = down mi.count }

-- `Release`, with none for the panic.
unfoldable pub release : MountInfo → Option (Bool × MountInfo)
release mi = elim mi.state [
  | mounted ↦
      if down mi.count == 0
      then some (true, record { state = unmounting; count = down mi.count })
      else some (false, record { state = mounted; count = down mi.count })
  | init ↦ none
  | mounting ↦ none
  | unmounting ↦ none
]

-- `UnmountComplete`, with none for the panic.
unfoldable pub unmount_complete : MountInfo → Option MountInfo
unmount_complete mi = elim mi.state [
  | unmounting ↦ some (record { state = init; count = mi.count })
  | init ↦ none
  | mounting ↦ none
  | mounted ↦ none
]
