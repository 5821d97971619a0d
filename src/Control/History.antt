-- ===== src/Control/History.antt =====
-- dbrpc/task_control.cpp: the table of groups over a history of its operations.
use brpc_source_code_analysi.Prelude.{
  ℕ, ◌≡◌, ◌<◌, ◌⊎◌, dec_lt, Bool, true, false, Option, none, some, arith, inl, inr,
}
use brpc_source_code_analysi.Control.Groups.{
  Groups, add_group, delete_group, stop_groups, choose_one_group,
}
use brpc_source_code_analysi.Control.Table.{occurrences}
use brpc_source_code_analysi.Control.WellFormed.{IsTable, add_group-IsTable, delete_group-IsTable}

-- A group is added once, when its worker has made it. `belongs` is whether a group that is to be
-- removed has this control.
pub data TableStep (max_concurrency : ℕ) (t t' : Groups) : Type 0 where
  adds :
      (g : ℕ)
      → occurrences g t ≡ 0
      → t' ≡ (add_group max_concurrency (some g) t).0
      → TableStep max_concurrency t t'
  adds_null : t' ≡ (add_group max_concurrency none t).0 → TableStep max_concurrency t t'
  deletes :
      (g : Option ℕ) (belongs : Bool)
      → t' ≡ (delete_group g belongs t).0
      → TableStep max_concurrency t t'
  stops : t' ≡ stop_groups t → TableStep max_concurrency t t'

pub data TableHistory (max_concurrency : ℕ) (t : Groups) : Groups → Type 0 where
  at_start : TableHistory max_concurrency t t
  one_more :
      {t1 t2 : Groups}
      → TableHistory max_concurrency t t1
      → TableStep max_concurrency t1 t2
      → TableHistory max_concurrency t t2

-- As the constructor of `TaskControl` leaves it.
abbrev pub IsNew : Groups → Type 0
IsNew t = (t.ngroup ≡ 0) × (t.stop ≡ false)

IsNew-IsTable : (max_concurrency : ℕ) (t : Groups) → IsNew t → IsTable max_concurrency t
IsNew-IsTable max_concurrency t (empty, going) = record {
  bounded = omega (arith, empty);
  filled = λ i lt. absurd (omega (arith, empty, lt));
  distinct = λ g. ground (arith, empty);
}

stop_groups-IsTable : (max_concurrency : ℕ) (t : Groups) → IsTable max_concurrency (stop_groups t)
unfolding stop_groups
stop_groups-IsTable max_concurrency t = record {
  bounded = omega arith;
  filled = λ i lt. absurd (omega (arith, lt));
  distinct = λ g. ground arith;
}

foreign_group : (g : Option ℕ) (t : Groups) → (delete_group g false t).0 ≡ t
unfolding delete_group
foreign_group none t = ground arith
foreign_group (some g) t = ground arith

no_group : (belongs : Bool) (t : Groups) → (delete_group none belongs t).0 ≡ t
unfolding delete_group
no_group belongs t = ground arith

null_group : (max_concurrency : ℕ) (t : Groups) → (add_group max_concurrency none t).0 ≡ t
unfolding add_group
null_group max_concurrency t = ground arith

TableStep-IsTable :
    (max_concurrency : ℕ) {t t' : Groups}
    → TableStep max_concurrency t t'
    → IsTable max_concurrency t
    → IsTable max_concurrency t'
TableStep-IsTable max_concurrency (adds g new e) v =
    rw e (add_group-IsTable max_concurrency g _ new v)
TableStep-IsTable max_concurrency {t} (adds_null e) v = rw (e, null_group max_concurrency t) v
TableStep-IsTable max_concurrency {t} (deletes none belongs e) v = rw (e, no_group belongs t) v
TableStep-IsTable max_concurrency {t} (deletes (some g) true e) v =
    rw e (delete_group-IsTable max_concurrency g t v)
TableStep-IsTable max_concurrency {t} (deletes (some g) false e) v =
    rw (e, foreign_group (some g) t) v
TableStep-IsTable max_concurrency {t} (stops e) v = rw e (stop_groups-IsTable max_concurrency t)

choose-filled :
    (max_concurrency : ℕ) (fast_rand_less_than : ℕ → ℕ) (t : Groups)
    → fast_rand_less_than t.ngroup < t.ngroup
    → IsTable max_concurrency t
    → (g : ℕ) × (choose_one_group fast_rand_less_than t ≡ some g)
unfolding choose_one_group
choose-filled max_concurrency fast_rand_less_than t lt v =
    let (g, e) = v.filled (fast_rand_less_than t.ngroup) lt in (g, ground (arith, e, lt))

-- After any additions of new groups, removals and stops, from the table of a new control: the table
-- is within its bound, its slots in use hold groups and no group stands in two of them; and while
-- it is not empty, a random index below its size chooses a group.
pub TableHistory-IsTable :
    (max_concurrency : ℕ) (fast_rand_less_than : ℕ → ℕ) {t t' : Groups}
    → ((n : ℕ) → 0 < n → fast_rand_less_than n < n)
    → IsNew t
    → TableHistory max_concurrency t t'
    → IsTable max_concurrency t'
      × ((t'.ngroup ≡ 0) ⊎ ((g : ℕ) × (choose_one_group fast_rand_less_than t' ≡ some g)))
TableHistory-IsTable max_concurrency fast_rand_less_than {t} {t'} below new h =
    let v = go h in
    (
      v,
      elim (dec_lt 0 t'.ngroup) [
        | yes some_group ↦
            inr
              (choose-filled max_concurrency fast_rand_less_than t' (below t'.ngroup some_group) v)
        | no empty ↦ inl (omega (arith, empty))
      ],
    )
  where
    go : {t' : Groups} → TableHistory max_concurrency t t' → IsTable max_concurrency t'
    go at_start = IsNew-IsTable max_concurrency t new
    go (one_more h s) = TableStep-IsTable max_concurrency s (go h)
