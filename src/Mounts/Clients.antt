-- ===== src/Mounts/Clients.antt =====
-- The connections that use one mount, as calls of the mount manager in any order: how many are
-- mounting, use the mount and are unmounting.
use sibench.Base.{
  ℕ, zero, suc, ◌+◌, if◌then◌else◌, Bool, true, false, Option, none, some, List, [], ◌∷◌, length,
}
use sibench.Base.{◌≡◌, refl, ap, ◌∙◌, ◌<◌, ◌≤◌, ◌^◌, arith}
use sibench.Mounts.{
  MountState, init, mounting, mounted, unmounting, MountInfo, must_mount, is_ready, must_wait,
  acquire, mount_complete, release, unmount_complete,
}

pub record Clients : Type 0 where
  pub info : MountInfo
  pub mounters : ℕ
  pub users : ℕ
  pub unmounters : ℕ

abbrev pub nobody : Clients
nobody = record {
  info = record { state = init; count = 0 };
  mounters = 0;
  users = 0;
  unmounters = 0;
}

-- A turn of a caller of `Acquire`; the report of one who mounted; a user that leaves; the report
-- of one who unmounted.
pub data Call : Type 0 where
  arrive : Call
  mount_done : Bool → Call
  leave unmount_done : Call

-- A call by a connection that keeps to the protocol, where there is one that can make it; none
-- where the mount manager panics.
unfoldable pub call : Call → Clients → Option Clients
call arrive c =
    let (turn, info) = acquire c.info in
    elim turn [
      | must_mount ↦ some (record c { info = info; mounters = suc c.mounters })
      | is_ready ↦ some (record c { info = info; users = suc c.users })
      | must_wait ↦ some c
    ]
call (mount_done success) c = elim c.mounters [
  | zero ↦ some c
  | suc m ↦ some (record c {
    info = mount_complete success c.info;
    mounters = m;
    users = if success then suc c.users else c.users;
  })
]
call leave c = elim c.users [
  | zero ↦ some c
  | suc u ↦ elim (release c.info) [
    | none ↦ none
    | some (last, info) ↦ some (record c {
      info = info;
      users = u;
      unmounters = if last then suc c.unmounters else c.unmounters;
    })
  ]
]
call unmount_done c = elim c.unmounters [
  | zero ↦ some c
  | suc k ↦ elim (unmount_complete c.info) [
    | none ↦ none
    | some info ↦ some (record c { info = info; unmounters = k })
  ]
]

unfoldable pub run : List Call → Clients → Option Clients
run [] c = some c
run (x ∷ calls) c = elim (call x c) [ none ↦ none | some c' ↦ run calls c' ]

-- Who there is in each state of the mount.
abbrev pub Fits : MountState → ℕ → ℕ → ℕ → ℕ → Type 0
Fits init count m u k = (count ≡ 0) × (m ≡ 0) × (u ≡ 0) × (k ≡ 0)
Fits mounting count m u k = (count ≡ 1) × (m ≡ 1) × (u ≡ 0) × (k ≡ 0)
Fits mounted count m u k = (count ≡ u) × (m ≡ 0) × (0 < u) × (k ≡ 0)
Fits unmounting count m u k = (count ≡ 0) × (m ≡ 0) × (u ≡ 0) × (k ≡ 1)

abbrev pub IsSound : Clients → Type 0
IsSound c = Fits c.info.state c.info.count c.mounters c.users c.unmounters

abbrev Goes : Call → Clients → Type 0
Goes x c = (c' : Clients) × (call x c ≡ some c') × IsSound c' × (c'.info.count ≤ suc c.info.count)

call-IsSound :
    (x : Call) (st : MountState) (count m u k : ℕ)
    → Fits st count m u k
    → suc count < 2 ^ 64
    → Goes x (record {
      info = record { state = st; count = count };
      mounters = m;
      users = u;
      unmounters = k;
    })
unfolding call acquire mount_complete release unmount_complete
call-IsSound arrive init count m u k (a, b, c, d) h =
    (_, refl, (omega arith, omega arith, c, d), omega arith)
call-IsSound arrive mounting count m u k s h = (_, refl, s, omega arith)
call-IsSound arrive mounted count m u k (a, b, c, d) h =
    (_, refl, (omega arith, b, omega arith, d), omega arith)
call-IsSound arrive unmounting count m u k s h = (_, refl, s, omega arith)
call-IsSound (mount_done r) st count zero u k s h = (_, refl, s, omega arith)
call-IsSound (mount_done r) init count (suc m) u k (a, b, c, d) h = absurd (omega arith)
call-IsSound (mount_done true) mounting count (suc m) u k (a, b, c, d) h =
    (_, refl, (omega arith, omega arith, omega arith, d), omega arith)
call-IsSound (mount_done false) mounting count (suc m) u k (a, b, c, d) h =
    (_, refl, (omega arith, omega arith, c, d), omega arith)
call-IsSound (mount_done r) mounted count (suc m) u k (a, b, c, d) h = absurd (omega arith)
call-IsSound (mount_done r) unmounting count (suc m) u k (a, b, c, d) h = absurd (omega arith)
call-IsSound leave st count m zero k s h = (_, refl, s, omega arith)
call-IsSound leave init count m (suc u) k (a, b, c, d) h = absurd (omega arith)
call-IsSound leave mounting count m (suc u) k (a, b, c, d) h = absurd (omega arith)
call-IsSound leave mounted count m (suc zero) k (a, b, c, d) h =
    rw a (_, refl, (refl, b, refl, ap suc d), omega arith)
call-IsSound leave mounted count m (suc (suc u)) k (a, b, c, d) h =
    let remaining : Clients = record {
      info = record { state = mounted; count = suc u };
      mounters = m;
      users = suc u;
      unmounters = k;
    } in
    (remaining, ground (arith, a), (refl, b, omega arith, d), omega arith)
call-IsSound leave unmounting count m (suc u) k (a, b, c, d) h = absurd (omega arith)
call-IsSound unmount_done st count m u zero s h = (_, refl, s, omega arith)
call-IsSound unmount_done init count m u (suc k) (a, b, c, d) h = absurd (omega arith)
call-IsSound unmount_done mounting count m u (suc k) (a, b, c, d) h = absurd (omega arith)
call-IsSound unmount_done mounted count m u (suc k) (a, b, c, d) h = absurd (omega arith)
call-IsSound unmount_done unmounting count m u (suc k) (a, b, c, d) h =
    (_, refl, (a, b, c, omega arith), omega arith)

run-call :
    (x : Call) (calls : List Call) (c c' : Clients)
    → call x c ≡ some c'
    → run (x ∷ calls) c ≡ run calls c'
unfolding run
run-call x calls c c' e = rw (e, run) refl

run-IsSound :
    (calls : List Call) (c : Clients)
    → IsSound c
    → length calls + c.info.count < 2 ^ 64
    → (c' : Clients) × (run calls c ≡ some c') × IsSound c'
unfolding run
run-IsSound [] c s h = (c, refl, s)
run-IsSound (x ∷ calls) c s h =
    let g =
      call-IsSound x c.info.state c.info.count c.mounters c.users c.unmounters s (omega arith) in
    let r = run-IsSound calls g.0 g.2 (omega (arith, g.3)) in
    (r.0, run-call x calls c g.0 g.1 ∙ r.1, r.2)

Fits-exclusive :
    (st : MountState) (count m u k : ℕ) → Fits st count m u k → (m + k ≤ 1) × (0 < m + k → u ≡ 0)
Fits-exclusive init count m u k (a, b, c, d) = (omega arith, λ _. c)
Fits-exclusive mounting count m u k (a, b, c, d) = (omega arith, λ _. c)
Fits-exclusive mounted count m u k (a, b, c, d) = (omega arith, λ h. absurd (omega arith))
Fits-exclusive unmounting count m u k (a, b, c, d) = (omega arith, λ _. c)

-- Fewer than 2 ^ 64 calls in any order by connections that keep to the protocol never make the
-- mount manager panic, and at the end at most one connection mounts or unmounts, and no connection
-- uses the mount while one does.
pub run-exclusive :
    (calls : List Call)
    → length calls < 2 ^ 64
    → (c : Clients) × (run calls nobody ≡ some c)
      × (c.mounters + c.unmounters ≤ 1)
      × (0 < c.mounters + c.unmounters → c.users ≡ 0)
run-exclusive calls h =
    let r = run-IsSound calls nobody (refl, refl, refl, refl) (omega arith) in
    let f =
      Fits-exclusive r.0.info.state r.0.info.count r.0.mounters r.0.users r.0.unmounters r.2 in
    (r.0, r.1, f.0, f.1)
