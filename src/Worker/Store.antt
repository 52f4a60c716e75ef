-- ===== src/Worker/Store.antt =====
-- The store of detailed statistics of a worker (src/sibench/worker.go): `clearStats`, `nextStat`,
-- with the stat that its caller writes through the pointer, and `UploadStats`.
pub mod Appends
pub mod Log
use sibench.Base.{
  ℕ, zero, suc, ◌+◌, ◌==◌, leb, ltb, if◌then◌else◌, length, get_elem?, set, take, replicate,
}
use sibench.Base.{Bool, true, false, Option, none, some, List, [], ◌∷◌, ◌++◌}
use sibench.Messages.{Stat, StatPhase, StatError}

-- `slices` is the field `stats`.
pub record Store : Type 0 where
  pub slices : List (List Stat)
  pub next_stat_index : ℕ
  pub stat_slice_index : ℕ
  pub stat_last_slice_index : ℕ
  pub preallocation : ℕ

-- What `make` puts in a slice.
abbrev pub blank : Stat
blank = record {
  phase = StatPhase.write;
  error = StatError.ok;
  target_index = 0;
  time_since_phase_start_millis = 0;
  duration_micros = 0;
}

unfoldable pub clear_stats : Store → Store
clear_stats st = record st { next_stat_index = 0; stat_last_slice_index = 0; stat_slice_index = 0 }

unfoldable pub new_store : ℕ → Store
new_store n = clear_stats (record {
  slices = replicate n blank ∷ [];
  next_stat_index = 0;
  stat_slice_index = 0;
  stat_last_slice_index = 0;
  preallocation = n;
})

-- The end of `nextStat`, for a current slice of the length `len`.
unfoldable pub advance : ℕ → Store → Store
advance len st =
    if st.next_stat_index + 1 == len
    then (let next = st.stat_slice_index + 1 in
        if leb st.stat_last_slice_index next
        then record st {
          next_stat_index = 0;
          stat_slice_index = next;
          stat_last_slice_index = st.stat_last_slice_index + 1;
          slices = st.slices ++ (replicate st.preallocation blank ∷ []);
        }
        else record st { next_stat_index = 0; stat_slice_index = next })
    else record st { next_stat_index = st.next_stat_index + 1 }

-- `none` is the panic of an index that is out of range.
unfoldable pub next_stat : Stat → Store → Option Store
next_stat s st = elim (get_elem? st.slices st.stat_slice_index) [
  | none ↦ none
  | some slice ↦
      if ltb st.next_stat_index (length slice)
      then some (
          advance (length slice) (record st {
            slices = set st.slices st.stat_slice_index (set slice st.next_stat_index s);
          }))
      else none
]

-- The loop of `UploadStats` from the slice `i` on: each full slice, then the part of the last one
-- that is filled, is a message.
unfoldable pub messages : ℕ → ℕ → ℕ → List (List Stat) → List (List Stat)
messages i last filled [] = []
messages i last filled (slice ∷ slices) =
    let rest = messages (i + 1) last filled slices in
    if i == last then take filled slice ∷ [] else slice ∷ rest

unfoldable pub upload_stats : Store → List (List Stat) × Store
upload_stats st = (messages 0 st.stat_slice_index st.next_stat_index st.slices, clear_stats st)
