-- ===== src/Worker/Store/Appends.antt =====
-- A store that is well formed, what it has recorded, and what one more stat does to it.
use sibench.Base.{ℕ, suc, ◌+◌, ◌<◌, length, get_elem?, set, take, replicate, All}
use sibench.Base.{
  none, some, List, [], ◌∷◌, ◌++◌, ◌≡◌, refl, sym, ◌∙◌, arith, append-nil, append_assoc, concat,
  concat-append, lt→ltb, le→leb, ==_ne, ==_iff,
}
use sibench.Base.{
  take-set, take-suc-set, take-append_le, get_elem?-some, get_elem?-set_self, All-get_elem?,
  All-set, All-append, length-append, length-set, length-replicate, take_all,
}
use native.Mathlib.Numerals.{add-one}
use sibench.Messages.{Stat}
use sibench.Worker.Store.{Store, blank, clear_stats, new_store, advance, next_stat}

pub record IsStore (st : Store) : Type 0 where
  pub room : 0 < st.preallocation
  pub sized : All (λ slice. length slice ≡ st.preallocation) st.slices
  pub next_in : st.next_stat_index < st.preallocation
  pub slice_in : st.stat_slice_index < length st.slices
  pub last : st.stat_last_slice_index ≡ st.stat_slice_index

-- The stats that are recorded, oldest first.
unfoldable pub recorded : Store → List Stat
recorded st = elim (get_elem? st.slices st.stat_slice_index) [
  | none ↦ []
  | some slice ↦ concat (take st.stat_slice_index st.slices) ++ take st.next_stat_index slice
]

pub recorded_found :
    (st : Store) (slice : List Stat)
    → get_elem? st.slices st.stat_slice_index ≡ some slice
    → recorded st ≡ concat (take st.stat_slice_index st.slices) ++ take st.next_stat_index slice
unfolding recorded
recorded_found st slice e = rw (e, recorded)

pub new_store-IsStore : (n : ℕ) → 0 < n → IsStore (new_store n)
unfolding new_store clear_stats
new_store-IsStore n h = record {
  room = h;
  sized = (length-replicate n blank, tt);
  next_in = h;
  slice_in = omega arith;
  last = refl;
}

pub clear_stats-IsStore : (st : Store) → IsStore st → IsStore (clear_stats st)
unfolding clear_stats
clear_stats-IsStore st h = record {
  room = h.room;
  sized = h.sized;
  next_in = h.room;
  slice_in = let a = h.slice_in in omega arith;
  last = refl;
}

module _ (s : Stat) (st : Store) (h : IsStore st) (slice : List Stat)
    (found : get_elem? st.slices st.stat_slice_index ≡ some slice) where
  len : length slice ≡ st.preallocation
  len =
      All-get_elem? (λ sl. length sl ≡ st.preallocation) st.slices st.stat_slice_index slice h.sized
        found

  written : Store
  written = record st {
    slices = set st.slices st.stat_slice_index (set slice st.next_stat_index s);
  }

  -- The two ways on: within the slice, and to a new one.
  pub stepped : Store
  stepped = record st {
    slices = set st.slices st.stat_slice_index (set slice st.next_stat_index s);
    next_stat_index = st.next_stat_index + 1;
  }

  pub turned : Store
  turned = record st {
    next_stat_index = 0;
    stat_slice_index = st.stat_slice_index + 1;
    stat_last_slice_index = st.stat_last_slice_index + 1;
    slices =
        set st.slices st.stat_slice_index (set slice st.next_stat_index s)
        ++ (replicate st.preallocation blank ∷ []);
  }

  next_stat-written : next_stat s st ≡ some (advance (length slice) written)
  unfolding next_stat written
  next_stat-written =
      let l = h.next_in in
      rw (found, next_stat) (rw (lt→ltb st.next_stat_index (length slice) (omega (arith, len))))

  pub next_stat-stepped : st.next_stat_index + 1 < st.preallocation → next_stat s st ≡ some stepped
  unfolding advance written stepped
  next_stat-stepped l =
      next_stat-written ∙ rw (==_ne (st.next_stat_index + 1) (length slice) (omega (arith, len)))

  pub next_stat-turned : st.next_stat_index + 1 ≡ st.preallocation → next_stat s st ≡ some turned
  unfolding advance written turned
  next_stat-turned e =
      next_stat-written
      ∙ rw ((==_iff (st.next_stat_index + 1) (length slice)).1 (omega (arith, len))) (
          rw (
            le→leb st.stat_last_slice_index (st.stat_slice_index + 1)
              (let l = h.last in omega arith)))

  set_sized :
      All
        (λ sl. length sl ≡ st.preallocation)
        (set st.slices st.stat_slice_index (set slice st.next_stat_index s))
  set_sized =
      All-set (λ sl. length sl ≡ st.preallocation) st.slices st.stat_slice_index _ h.sized
        (length-set slice st.next_stat_index s ∙ len)

  pub stepped-IsStore : st.next_stat_index + 1 < st.preallocation → IsStore stepped
  unfolding stepped
  stepped-IsStore l = record {
    room = h.room;
    sized = set_sized;
    next_in = l;
    slice_in =
        let i = h.slice_in in
        omega (arith, length-set st.slices st.stat_slice_index (set slice st.next_stat_index s));
    last = h.last;
  }

  pub turned-IsStore : IsStore turned
  unfolding turned
  turned-IsStore = record {
    room = h.room;
    sized =
        All-append (λ sl. length sl ≡ st.preallocation) _ _ set_sized
          (length-replicate st.preallocation blank, tt);
    next_in = h.room;
    slice_in =
        let i = h.slice_in in
        omega (
          arith,
          length-append (set st.slices st.stat_slice_index (set slice st.next_stat_index s))
              (replicate st.preallocation blank ∷ []),
          length-set st.slices st.stat_slice_index (set slice st.next_stat_index s),
        );
    last = let l = h.last in omega arith;
  }

  pub recorded-stepped :
      st.next_stat_index + 1 < st.preallocation → recorded stepped ≡ recorded st ++ (s ∷ [])
  unfolding stepped
  recorded-stepped l =
      let i = st.stat_slice_index in
      let n = st.next_stat_index in
      let e = h.next_in in
      recorded_found stepped (set slice n s)
        (get_elem?-set_self st.slices i (set slice n s) h.slice_in)
      ∙ rw
          (
            take-set,
            add-one,
            take-suc-set slice n s (omega (arith, len)),
            recorded_found st slice found,
          )
          (sym (append_assoc (concat (take i st.slices)) (take n slice) (s ∷ [])))

  -- The slice that is full once the stat is in it.
  full_slice :
      st.next_stat_index + 1 ≡ st.preallocation
      → set slice st.next_stat_index s ≡ take st.next_stat_index slice ++ (s ∷ [])
  full_slice e =
      let n = st.next_stat_index in
      sym (take_all (suc n) (set slice n s) (omega (arith, len, length-set slice n s)))
      ∙ take-suc-set slice n s (omega (arith, len))

  -- The slices up to the full one.
  full_slices :
      concat (
        take (suc st.stat_slice_index) (
          set st.slices st.stat_slice_index (set slice st.next_stat_index s)
          ++ (replicate st.preallocation blank ∷ [])))
      ≡ concat (take st.stat_slice_index st.slices) ++ set slice st.next_stat_index s
  full_slices =
      let i = st.stat_slice_index in
      let full = set slice st.next_stat_index s in
      let inside = h.slice_in in
      rw
        (take-append_le (suc i) (set st.slices i full) (replicate st.preallocation blank ∷ [])
          (omega (arith, length-set st.slices i full)))
        (rw (take-suc-set st.slices i full h.slice_in)
          (rw (concat-append (take i st.slices) (full ∷ []), append-nil)))

  pub recorded-turned :
      st.next_stat_index + 1 ≡ st.preallocation → recorded turned ≡ recorded st ++ (s ∷ [])
  recorded-turned e =
      let (slice', found') =
        get_elem?-some turned.slices turned.stat_slice_index turned-IsStore.slice_in in
      recorded_found turned slice' found'
      ∙ unfold turned in
        (rw (append-nil, add-one, full_slices, full_slice e, recorded_found st slice found)
          (sym (
            append_assoc (concat (take st.stat_slice_index st.slices))
              (take st.next_stat_index slice) (s ∷ []))))
