-- ===== src/Control/WellFormed.antt =====
-- dbrpc/task_control.cpp: the form of the table of groups when groups come and go.
use brpc_source_code_analysi.Prelude.{
  ℕ, ◌≡◌, ◌-◌, ◌≤◌, ◌<◌, ◌==◌, ltb, Bool, true, false, some, arith, inl, inr, Bool-cases, dec_lt,
  ==_eq,
}
use brpc_source_code_analysi.Control.Groups.{Groups, add_group, delete_group}
use brpc_source_code_analysi.Control.Table.{
  occurrences, erase_at, Search, erase_group-Search, add_group_cases, delete_group-DeletedCases,
}

-- The table is within its capacity, its slots in use hold groups, and no group stands in two.
pub record IsTable (max_concurrency : ℕ) (t : Groups) : Type 0 where
  pub bounded : t.ngroup ≤ max_concurrency
  pub filled : (i : ℕ) → i < t.ngroup → (g : ℕ) × (t.groups i ≡ some g)
  pub distinct : (g : ℕ) → occurrences g t ≤ 1

filled-erase_at :
    (k : ℕ) (t : Groups)
    → ((i : ℕ) → i < t.ngroup → (g : ℕ) × (t.groups i ≡ some g))
    → k < t.ngroup
    → (i : ℕ) → i < t.ngroup - 1
    → (g : ℕ) × ((erase_at k t).groups i ≡ some g)
filled-erase_at k t h lt i li = elim (Bool-cases (k == i)) [
  | inl moved ↦ let (g, e) = h (t.ngroup - 1) (omega arith) in (g, rw moved e)
  | inr kept ↦ let (g, e) = h i (omega arith) in (g, rw kept e)
]

pub Search-filled :
    (g : ℕ) (t : Groups) (r : Groups × Bool)
    → ((i : ℕ) → i < t.ngroup → (x : ℕ) × (t.groups i ≡ some x))
    → Search t.ngroup 0 g t r
    → (r.0.ngroup ≤ t.ngroup) × ((i : ℕ) → i < r.0.ngroup → (x : ℕ) × (r.0.groups i ≡ some x))
Search-filled g t (t', true) h (k, lt, here, e) =
    rw e (omega arith, filled-erase_at k t h (omega (arith, lt)))
Search-filled g t (t', false) h (e, none_here) = rw e (omega arith, h)

pub add_group-stopped :
    (max_concurrency g : ℕ) (t : Groups)
    → t.stop ≡ true
    → (add_group max_concurrency (some g) t).0 ≡ t
unfolding add_group
add_group-stopped max_concurrency g t h = ground arith

-- Adding a group that is not in the table keeps the table well formed, full or not, stopped or not.
pub add_group-IsTable :
    (max_concurrency g : ℕ) (t : Groups)
    → occurrences g t ≡ 0
    → IsTable max_concurrency t
    → IsTable max_concurrency (add_group max_concurrency (some g) t).0
unfolding add_group
add_group-IsTable max_concurrency g t new v = elim (Bool-cases t.stop) [
  | inl stopped ↦ rw (add_group-stopped max_concurrency g t stopped) v
  | inr going ↦
      let a = add_group_cases max_concurrency g t going in
      elim (Bool-cases (ltb t.ngroup max_concurrency)) [
        | inl room ↦ record {
          bounded = ground (arith, room, going);
          filled = λ i lt. elim (Bool-cases (t.ngroup == i)) [
            | inl last ↦ (g, ground (arith, room, going, last))
            | inr old ↦
                let (x, e) = v.filled i (ground (arith, lt, room, going, old)) in
                (x, ground (arith, e, room, going, old))
          ];
          distinct = λ x. ground (arith, a.3 room x, v.distinct x, new, ==_eq g x);
        }
        | inr full ↦ rw (a.2 full) v
      ]
]

-- Removing a group, in the table or not, keeps the table well formed.
pub delete_group-IsTable :
    (max_concurrency g : ℕ) (t : Groups)
    → IsTable max_concurrency t
    → IsTable max_concurrency (delete_group (some g) true t).0
unfolding delete_group
delete_group-IsTable max_concurrency g t v =
    let d = delete_group-DeletedCases g t in
    let f = Search-filled g t _ v.filled (erase_group-Search t.ngroup 0 g t) in
    record {
      bounded = omega (arith, f.0, v.bounded);
      filled = f.1;
      distinct = λ x. elim (dec_lt 0 (occurrences g t)) [
        | yes h ↦ omega (arith, d.rest h x, v.distinct x)
        | no h ↦ rw (d.missing (omega (arith, h))).0 (v.distinct x)
      ];
    }
