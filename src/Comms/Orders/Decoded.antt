-- ===== src/Comms/Orders/Decoded.antt =====
-- An order in a fresh variable, and in one that holds an earlier order.
use sibench.Base.{
  ℕ, ◌*◌, ◌/◌, ◌==◌, ◌≡◌, refl, sym, ap, ◌∙◌, arith, if◌then◌else◌, Bool, true, false, ◌||◌, List,
  [], ◌∷◌, ◌++◌, inl, inr, Bool-cases, append_assoc, append-nil,
}
use Prim.Native.String.{String}
use text.Mathlib.Text.{◌==◌ as str_eq}
use text.Mathlib.TextEquality.{eq_iff}
use sibench.Base.Floats.{Float32}
use sibench.Messages.{WorkOrder}
use sibench.Foreman.Connect.{Site, make_workers}
use sibench.Foreman.Ranges.{total_bandwidth, make_workers_total}
use sibench.Comms.Orders.{list_of, set_entry, map_of, decode_order, zero_order}

-- No entry has the key.
abbrev pub lacks : String → List (String × String) → Bool
lacks k [] = true
lacks k ((k', v) ∷ entries) = let rest = lacks k entries in if str_eq k k' then false else rest

-- The keys of a map are different.
abbrev pub IsMap : List (String × String) → List (String × String) → Type 0
IsMap done [] = Unit
IsMap done ((k, v) ∷ entries) = (lacks k done ≡ true) × IsMap (done ++ (k, v) ∷ []) entries

set_entry-lacks :
    (k v : String) (done : List (String × String))
    → lacks k done ≡ true
    → set_entry k v done ≡ done ++ (k, v) ∷ []
set_entry-lacks k v [] h = refl
set_entry-lacks k v ((k', v') ∷ done) h = elim (Bool-cases (str_eq k k')) [
  | inl same ↦ absurd (false_true (rw (same, if◌then◌else◌) at h))
  | inr other ↦
      rw (other, if◌then◌else◌)
        (ap (λ es. (k', v') ∷ es) (set_entry-lacks k v done (rw (other, if◌then◌else◌) at h)))
]
  where
    false_true : false ≡ true → ⊥
    false_true e = cc

map_of_lem :
    (entries done : List (String × String))
    → IsMap done entries
    → map_of entries done ≡ done ++ entries
map_of_lem [] done h = sym (append-nil done)
map_of_lem ((k, v) ∷ entries) done (h, hs) =
    ap (map_of entries) (set_entry-lacks k v done h)
    ∙ map_of_lem entries (done ++ (k, v) ∷ []) hs
    ∙ append_assoc done ((k, v) ∷ []) entries

string_lem : (s : String) → (if str_eq s "" then "" else s) ≡ s
string_lem s = elim (Bool-cases (str_eq s "")) [
  | inl empty ↦ rw (empty, if◌then◌else◌) (sym ((eq_iff s "").0 empty))
  | inr other ↦ rw (other, if◌then◌else◌)
]

number_lem : (n : ℕ) → (if n == 0 then 0 else n) ≡ n
number_lem n = ground arith

list_lem : (ss : List String) → list_of ss [] ≡ ss
list_lem [] = refl
list_lem (s ∷ ss) = refl

flag_lem : (b : Bool) → (b || false) ≡ b
flag_lem true = refl
flag_lem false = refl

-- The first order that a foreman gets is the one that was sent, where the keys of its maps are
-- different.
pub decode_order-zero_order :
    (sent : WorkOrder)
    → IsMap [] sent.protocol_config
    → IsMap [] sent.generator_config
    → decode_order sent zero_order ≡ sent
unfolding decode_order
decode_order-zero_order sent p g = rw (
  number_lem sent.job_id,
  number_lem sent.bandwidth,
  flag_lem sent.skip_read_validation,
  number_lem sent.read_write_mix,
  string_lem sent.object_key_prefix,
  number_lem sent.object_size,
  number_lem sent.seed,
  string_lem sent.generator_type,
  number_lem sent.range_start,
  number_lem sent.range_end,
  string_lem sent.connection_type,
  list_lem sent.targets,
  map_of_lem sent.protocol_config [] p,
  map_of_lem sent.generator_config [] g,
  flag_lem sent.clean_up_on_close,
)

-- After an earlier order with a limit, an order without one leaves the earlier limit in force:
-- where every worker is made, the workers share the bandwidth of the earlier order.
pub make_workers-decode_order :
    (fl : Float32) (site : Site) (sent old : WorkOrder) (n : ℕ)
    → ((j : ℕ) → site.makes_worker j ≡ true)
    → sent.bandwidth ≡ 0
    → total_bandwidth (make_workers fl site (decode_order sent old) n) ≡ n * (old.bandwidth / n)
unfolding decode_order
make_workers-decode_order fl site sent old n made z =
    make_workers_total fl site (decode_order sent old) n made ∙ ap (λ b. n * (b / n)) (rw z)
