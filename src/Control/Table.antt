-- ===== src/Control/Table.antt =====
-- dbrpc/task_control.cpp: what adding and removing groups does to the table.
use brpc_source_code_analysi.Prelude.{
  ◌⊎◌, ℕ, zero, suc, ◌≡◌, refl, ◌+◌, ◌-◌, ◌≤◌, ◌<◌, ◌==◌, if◌then◌else◌, ltb, Bool, true, false,
  Option, some, List, [], ◌∷◌, same, arith, inl, inr, Bool-cases, tally, tally-above, tally-update,
  le-tally, tally-eq-zero, dec_lt, ==_refl,
}
use brpc_source_code_analysi.Control.Groups.{
  Groups, Effect, signal_task, schedule_delete, Rc, rc_ok, store_group, add_group, erase_group,
  delete_group, deleted,
}

abbrev pub hit : ℕ → Option ℕ → ℕ
hit g slot = if same slot (some g) then 1 else 0

-- In how many of the first `n` slots group `g` stands.
abbrev pub occurrences : ℕ → Groups → ℕ
occurrences g t = tally (λ j. hit g (t.groups j)) t.ngroup

pub add_group_cases :
    (max_concurrency g : ℕ) (t : Groups)
    → t.stop ≡ false
    → ((add_group max_concurrency (some g) t).2 ≡ rc_ok)
      × ((add_group max_concurrency (some g) t).1 ≡ signal_task 65536 ∷ [])
      × (ltb t.ngroup max_concurrency ≡ false → (add_group max_concurrency (some g) t).0 ≡ t)
      × (ltb t.ngroup max_concurrency ≡ true
          → (x : ℕ)
          → occurrences x (add_group max_concurrency (some g) t).0
            ≡ occurrences x t + (if g == x then 1 else 0))
unfolding add_group
add_group_cases max_concurrency g t h = (
  ground arith,
  ground arith,
  (λ full. ground arith),
  (λ room x.
      ground
        (arith, room, ==_refl t.ngroup, tally-above (hit x) t.groups t.ngroup (some g) t.ngroup)),
)

-- While the control is not stopped, a new group takes one more slot and every other group keeps its
-- slots. `_add_group` answers 0 and signals also when the table is full: then the group is in no slot.
pub add_group-effect :
    (max_concurrency g x : ℕ) (t : Groups)
    → t.stop ≡ false
    → ((add_group max_concurrency (some g) t).2 ≡ rc_ok)
      × ((add_group max_concurrency (some g) t).1 ≡ signal_task 65536 ∷ [])
      × (((ltb t.ngroup max_concurrency ≡ false) × ((add_group max_concurrency (some g) t).0 ≡ t))
          ⊎ ((ltb t.ngroup max_concurrency ≡ true)
              × (occurrences x (add_group max_concurrency (some g) t).0
                  ≡ occurrences x t + (if g == x then 1 else 0))))
add_group-effect max_concurrency g x t going =
    let (answer, signalled, full, room) = add_group_cases max_concurrency g t going in
    (
      answer,
      signalled,
      elim (Bool-cases (ltb t.ngroup max_concurrency)) [
        | inl yes_room ↦ inr (yes_room, room yes_room x)
        | inr no_room ↦ inl (no_room, full no_room)
      ],
    )

abbrev pub erase_at : ℕ → Groups → Groups
erase_at i t = record (store_group i (t.groups (t.ngroup - 1)) t) { ngroup = t.ngroup - 1 }

-- What the loop finds, from slot `i` on.
abbrev pub Search : ℕ → ℕ → ℕ → Groups → Groups × Bool → Type 0
Search left i g t (t', true) =
    (k : ℕ) × (k < i + left) × (same (t.groups k) (some g) ≡ true) × (t' ≡ erase_at k t)
Search left i g t (t', false) =
    (t' ≡ t) × ((k : ℕ) → i ≤ k → k < i + left → same (t.groups k) (some g) ≡ false)

Search-suc :
    (left i g : ℕ) (t : Groups) (r : Groups × Bool)
    → same (t.groups i) (some g) ≡ false
    → Search left (suc i) g t r
    → Search (suc left) i g t r
Search-suc left i g t (t', true) h (k, lt, e, c) = (k, omega (arith, lt), e, c)
Search-suc left i g t (t', false) h (e, none_after) = (
  e,
  λ k le lt. elim (Bool-cases (i == k)) [
    | inl now ↦ ground (arith, now, h)
    | inr after ↦ none_after k (ground (arith, after, le)) (omega (arith, lt))
  ],
)

pub erase_group-Search : (left i g : ℕ) (t : Groups) → Search left i g t (erase_group left i g t)
unfolding erase_group
erase_group-Search zero i g t = (refl, λ k le lt. absurd (omega (arith, le, lt)))
erase_group-Search (suc left) i g t = elim (Bool-cases (same (t.groups i) (some g))) [
  | inl here ↦ rw (here, erase_group) (i, omega arith, here, refl)
  | inr h ↦ rw (h, erase_group) (Search-suc left i g t _ h (erase_group-Search left (suc i) g t))
]

pub erase_at-occurrences :
    (k n g x : ℕ) (t : Groups)
    → t.ngroup ≡ suc n
    → k < suc n
    → same (t.groups k) (some g) ≡ true
    → occurrences x (erase_at k t) + (if g == x then 1 else 0) ≡ occurrences x t
erase_at-occurrences k n g x t e lt h = elim (Bool-cases (k == n)) [
  | inl last ↦ ground (arith, e, last, h, tally-above (hit x) t.groups k (t.groups n) n)
  | inr below ↦ ground (arith, e, below, h, tally-update (hit x) t.groups k (t.groups n) n)
]

-- The answer, the calls and the table after removing group `g`.
pub record DeletedCases (g : ℕ) (t : Groups) (r : Groups × List Effect × Rc) : Type 0 where
  pub answers : r.2 ≡ rc_ok
  pub found : 0 < occurrences g t → r.1 ≡ schedule_delete g ∷ []
  pub rest :
      0 < occurrences g t
      → (x : ℕ) → occurrences x r.0 + (if g == x then 1 else 0) ≡ occurrences x t
  pub missing : occurrences g t ≡ 0 → (r.0 ≡ t) × (r.1 ≡ [])

Search-DeletedCases :
    (g : ℕ) (t : Groups) (r : Groups × Bool)
    → Search t.ngroup 0 g t r
    → DeletedCases g t (deleted g r)
Search-DeletedCases g t (t', true) (k, lt, here, e) =
    let size : t.ngroup ≡ suc (t.ngroup - 1) = omega (arith, lt) in
    record {
      answers = refl;
      found = λ h. refl;
      rest =
          λ h x. rw e (erase_at-occurrences k (t.ngroup - 1) g x t size (omega (arith, lt)) here);
      missing =
          λ h. absurd (ground (arith, h, here, lt, le-tally (λ j. hit g (t.groups j)) k t.ngroup));
    }
Search-DeletedCases g t (t', false) (e, none_here) =
    let zero_times =
      tally-eq-zero (λ j. hit g (t.groups j)) t.ngroup
        (λ j lt. rw (none_here j (omega arith) (omega (arith, lt))) refl) in
    record {
      answers = refl;
      found = λ h. absurd (omega (arith, h, zero_times));
      rest = λ h. absurd (omega (arith, h, zero_times));
      missing = λ h. (e, refl);
    }

pub delete_group-DeletedCases :
    (g : ℕ) (t : Groups) → DeletedCases g t (delete_group (some g) true t)
unfolding delete_group
delete_group-DeletedCases g t = Search-DeletedCases g t _ (erase_group-Search t.ngroup 0 g t)

-- Either the group was in the table: its deletion is scheduled and it has one slot less; or it was
-- not, and nothing happens.
abbrev pub Deleted : ℕ → Groups → Groups × List Effect × Rc → Type 0
Deleted g t r =
    ((0 < occurrences g t)
      × (r.1 ≡ schedule_delete g ∷ [])
      × ((x : ℕ) → occurrences x r.0 + (if g == x then 1 else 0) ≡ occurrences x t))
    ⊎ ((occurrences g t ≡ 0) × (r.0 ≡ t) × (r.1 ≡ []))

-- `_delete_group` of a group of this control answers 0. It takes one slot of the group out of the
-- table and schedules its deletion, and every other group keeps its number of slots; a group that is
-- not in the table changes nothing.
pub delete_group-Deleted :
    (g : ℕ) (t : Groups)
    → ((delete_group (some g) true t).2 ≡ rc_ok) × Deleted g t (delete_group (some g) true t)
delete_group-Deleted g t =
    let d = delete_group-DeletedCases g t in
    (
      d.answers,
      elim (dec_lt 0 (occurrences g t)) [
        | yes h ↦ inl (h, d.found h, d.rest h)
        | no h ↦
            let absent : occurrences g t ≡ 0 = omega (arith, h) in
            let (table, calls) = d.missing absent in inr (absent, table, calls)
      ],
    )
