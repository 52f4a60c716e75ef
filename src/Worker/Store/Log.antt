-- ===== src/Worker/Store/Log.antt =====
-- The store is a log: `nextStat` appends, and `UploadStats` sends the log and empties it.
use sibench.Base.{ℕ, zero, suc, ◌+◌, ◌<◌, ◌==◌, if◌then◌else◌, get_elem?, take}
use sibench.Base.{
  some, List, [], ◌∷◌, ◌++◌, ◌≡◌, refl, sym, ◌∙◌, arith, append-nil, append_assoc, concat, ==_ne,
  ==_iff, ==_self,
}
use sibench.Base.{get_elem?-some, Bool-cases, inl, inr}
use mathlib.Core.Path.{subst}
use native.Mathlib.Nat.{add-zero, zero-add}
use sibench.Messages.{Stat}
use sibench.Worker.Store.{Store, clear_stats, next_stat, messages, upload_stats}
use sibench.Worker.Store.Appends.{
  stepped, turned, next_stat-stepped, next_stat-turned, stepped-IsStore, turned-IsStore,
  recorded-stepped, recorded-turned, IsStore, recorded, recorded_found, clear_stats-IsStore,
}

-- With the store well formed `nextStat` never runs out of its slices: the stat is appended to what
-- is recorded, and the store is well formed again.
pub next_stat_lem :
    (s : Stat) (st : Store)
    → IsStore st
    → (st' : Store) × (next_stat s st ≡ some st')
      × IsStore st'
      × (recorded st' ≡ recorded st ++ (s ∷ []))
next_stat_lem s st h =
    let (slice, found) = get_elem?-some st.slices st.stat_slice_index h.slice_in in
    elim (Bool-cases (st.next_stat_index + 1 == st.preallocation)) [
      | inl e ↦
          let e' = (==_iff (st.next_stat_index + 1) st.preallocation).0 e in
          (
            turned s st h slice found,
            next_stat-turned s st h slice found e',
            turned-IsStore s st h slice found,
            recorded-turned s st h slice found e',
          )
      | inr n ↦
          let l : st.next_stat_index + 1 < st.preallocation = let m = h.next_in in ground arith in
          (
            stepped s st h slice found,
            next_stat-stepped s st h slice found l,
            stepped-IsStore s st h slice found l,
            recorded-stepped s st h slice found l,
          )
    ]

messages_lem :
    (i k filled : ℕ) (slices : List (List Stat)) (slice : List Stat)
    → get_elem? slices k ≡ some slice
    → concat (messages i (i + k) filled slices) ≡ concat (take k slices) ++ take filled slice
unfolding messages
messages_lem i k filled [] slice e = cc
messages_lem i zero filled (x ∷ xs) slice e =
    rw (add-zero, ==_self i, if◌then◌else◌) (rw append-nil (cc))
messages_lem i (suc k) filled (x ∷ xs) slice e =
    let shift : i + suc k ≡ i + 1 + k = omega arith in
    rw (==_ne i (i + suc k) (omega arith), if◌then◌else◌)
      (rw shift (
        rw (messages_lem (i + 1) k filled xs slice e)
          (sym (append_assoc x (concat (take k xs)) (take filled slice)))))

messages_whole :
    (k filled : ℕ) (slices : List (List Stat)) (slice : List Stat)
    → get_elem? slices k ≡ some slice
    → concat (messages 0 k filled slices) ≡ concat (take k slices) ++ take filled slice
messages_whole k filled slices slice e =
    subst (λ j. concat (messages 0 j filled slices) ≡ concat (take k slices) ++ take filled slice)
      (zero-add k) (messages_lem 0 k filled slices slice e)

-- `UploadStats` sends what is recorded, in order and in full, and leaves an empty record.
pub upload_stats_lem :
    (st : Store)
    → IsStore st
    → (concat (upload_stats st).0 ≡ recorded st)
      × (recorded (upload_stats st).1 ≡ [])
      × IsStore (upload_stats st).1
unfolding upload_stats
upload_stats_lem st h =
    let (slice, found) = get_elem?-some st.slices st.stat_slice_index h.slice_in in
    let cleared = clear_stats-IsStore st h in
    let (first, found') =
      get_elem?-some (clear_stats st).slices (clear_stats st).stat_slice_index cleared.slice_in in
    (
      messages_whole st.stat_slice_index st.next_stat_index st.slices slice found
          ∙ sym (recorded_found st slice found),
      recorded_found (clear_stats st) first found' ∙ unfold clear_stats in refl,
      cleared,
    )
