-- ===== src/Control/Refines.antt =====
-- dbrpc/task_control.cpp: the table of groups, seen as a collection without an order.
use mathlib.Core.Quot
use mathlib.Core.Quot.{Quot}
use brpc_source_code_analysi.Prelude.{
  ℕ, zero, suc, ◌≡◌, refl, ap, ◌∙◌, ◌-◌, ◌≤◌, ◌<◌, ◌==◌, ltb, Bool, true, false, Option, none, some,
  same, List, [], ◌∷◌, ◌++◌, length, count, remove, count-remove_self, count-remove_other, arith,
  ==_refl, Bool-cases, inl, inr, tally, le-tally, tally-eq-zero, update,
}
use brpc_source_code_analysi.Control.Groups.{
  Groups, Effect, Rc, add_group, delete_group, deleted, stop_groups,
}
use brpc_source_code_analysi.Control.Table.{
  hit, Search, erase_at, erase_at-occurrences, erase_group-Search,
}
use brpc_source_code_analysi.Control.WellFormed.{Search-filled}
use brpc_source_code_analysi.Control.Registry.{
  SameMembers, members_of, amount, size, put, take_out, Registry, Operation, adds, deletes, stops,
  specified, all_specified,
}

-- The control and what it asked of the rest of the program so far, newest first.
pub record Control : Type 0 where
  pub table : Groups
  pub asked : List Effect

abbrev pub after : Groups × List Effect × Rc → List Effect → Control
after (t, effects, rc) asked = record { table = t; asked = effects ++ asked }

abbrev pub perform : ℕ → Operation → Control → Control
perform max_concurrency (adds g) c = after (add_group max_concurrency (some g) c.table) c.asked
perform max_concurrency (deletes g) c = after (delete_group (some g) true c.table) c.asked
perform max_concurrency stops c = record c { table = stop_groups c.table }

abbrev pub perform_all : ℕ → List Operation → Control → Control
perform_all max_concurrency [] c = c
perform_all max_concurrency (op ∷ ops) c =
    perform_all max_concurrency ops (perform max_concurrency op c)

abbrev pub cons_group : Option ℕ → List ℕ → List ℕ
cons_group none gs = gs
cons_group (some g) gs = g ∷ gs

-- The groups in the first `n` slots.
abbrev pub held : ℕ → (ℕ → Option ℕ) → List ℕ
held zero groups = []
held (suc n) groups = cons_group (groups n) (held n groups)

abbrev pub registry : Control → Registry
registry c = record {
  members = members_of (held c.table.ngroup c.table.groups);
  stopped = c.table.stop;
  asked = c.asked;
}

abbrev pub IsFilled : Groups → Type 0
IsFilled t = (i : ℕ) → i < t.ngroup → (g : ℕ) × (t.groups i ≡ some g)

count-held :
    (x n : ℕ) (groups : ℕ → Option ℕ) → count x (held n groups) ≡ tally (λ j. hit x (groups j)) n
count-held x zero groups = refl
count-held x (suc n) groups = ground (arith, count-held x n groups)

length-held :
    (n : ℕ) (groups : ℕ → Option ℕ)
    → ((i : ℕ) → i < n → (g : ℕ) × (groups i ≡ some g))
    → length (held n groups) ≡ n
length-held zero groups h = refl
length-held (suc n) groups h =
    let (g, e) = h n (omega arith) in
    ground (arith, e, length-held n groups (λ i lt. h i (omega (arith, lt))))

Registry-ext :
    (r s : Registry) → r.members ≡ s.members → r.stopped ≡ s.stopped → r.asked ≡ s.asked → r ≡ s
Registry-ext r s a b c = cc

held-above :
    (n i : ℕ) (groups : ℕ → Option ℕ) (slot : Option ℕ)
    → n ≤ i
    → held n (update groups i slot) ≡ held n groups
held-above zero i groups slot h = refl
held-above (suc n) i groups slot h = ground (arith, held-above n i groups slot)

add_group-IsFilled :
    (max_concurrency g : ℕ) (t : Groups)
    → IsFilled t
    → IsFilled (add_group max_concurrency (some g) t).0
unfolding add_group
add_group-IsFilled max_concurrency g t h i lt = elim (Bool-cases (t.ngroup == i)) [
  | inl last ↦ elim (Bool-cases t.stop) [
    | inl stopped ↦
        let (x, e) = h i (ground (arith, lt, stopped)) in (x, ground (arith, e, stopped))
    | inr going ↦ (g, ground (arith, last, lt, going))
  ]
  | inr old ↦ let (x, e) = h i (ground (arith, lt, old)) in (x, ground (arith, e, old))
]

perform-IsFilled :
    (max_concurrency : ℕ) (op : Operation) (c : Control)
    → IsFilled c.table
    → IsFilled (perform max_concurrency op c).table
unfolding delete_group stop_groups
perform-IsFilled max_concurrency (adds g) c h = add_group-IsFilled max_concurrency g c.table h
perform-IsFilled max_concurrency (deletes g) c h =
    (Search-filled g c.table _ h (erase_group-Search c.table.ngroup 0 g c.table)).1
perform-IsFilled max_concurrency stops c h = λ i lt. absurd (omega (arith, lt))

adds-specified :
    (max_concurrency g : ℕ) (c : Control)
    → IsFilled c.table
    → registry (perform max_concurrency (adds g) c)
      ≡ specified max_concurrency (adds g) (registry c)
unfolding add_group size put
adds-specified max_concurrency g c h = ground (
  arith,
  ==_refl c.table.ngroup,
  length-held c.table.ngroup c.table.groups h,
  held-above c.table.ngroup c.table.ngroup c.table.groups (some g),
)

-- One slot of the group less: what is left is what taking the group out leaves.
erase_at-SameMembers :
    (k g : ℕ) (t : Groups)
    → k < t.ngroup
    → same (t.groups k) (some g) ≡ true
    → SameMembers
        (held (erase_at k t).ngroup (erase_at k t).groups)
        (remove g (held t.ngroup t.groups))
erase_at-SameMembers k g t lt found x =
    let size : t.ngroup ≡ suc (t.ngroup - 1) = omega (arith, lt) in
    let was = erase_at-occurrences k (t.ngroup - 1) g x t size (omega (arith, lt)) found in
    let now = count-held x (erase_at k t).ngroup (erase_at k t).groups in
    elim (Bool-cases (g == x)) [
      | inl it ↦ ground (
        arith,
        it,
        was,
        now,
        count-held x t.ngroup t.groups,
        count-remove_self g (held t.ngroup t.groups),
      )
      | inr other ↦ ground (
        arith,
        other,
        was,
        now,
        count-held x t.ngroup t.groups,
        count-remove_other g x (held t.ngroup t.groups),
      )
    ]

some-held :
    (k g : ℕ) (t : Groups)
    → k < t.ngroup
    → same (t.groups k) (some g) ≡ true
    → ltb 0 (count g (held t.ngroup t.groups)) ≡ true
some-held k g t lt found =
    ground
      (arith, found, count-held g t.ngroup t.groups, le-tally (λ j. hit g (t.groups j)) k t.ngroup)

Search-specified :
    (max_concurrency g : ℕ) (c : Control) (r : Groups × Bool)
    → Search c.table.ngroup 0 g c.table r
    → registry (after (deleted g r) c.asked) ≡ specified max_concurrency (deletes g) (registry c)
unfolding amount take_out
Search-specified max_concurrency g c (t', true) (k, lt', found, e) =
    let lt : k < c.table.ngroup = omega (arith, lt') in
    rw (some-held k g c.table lt found) (
      Registry-ext _ _
        (ap (λ (t : Groups). members_of (held t.ngroup t.groups)) e
          ∙ Quot.sound (erase_at-SameMembers k g c.table lt found))
        (ap (λ (t : Groups). t.stop) e) refl)
Search-specified max_concurrency g c (t', false) (e, none_here) =
    let absent : count g (held c.table.ngroup c.table.groups) ≡ 0 =
      count-held g c.table.ngroup c.table.groups
      ∙ tally-eq-zero (λ j. hit g (c.table.groups j)) c.table.ngroup
          (λ j lt. rw (none_here j (omega arith) (omega (arith, lt))) refl) in
    rw absent (ap (λ (t : Groups). registry (record { table = t; asked = c.asked })) e)

deletes-specified :
    (max_concurrency g : ℕ) (c : Control)
    → registry (perform max_concurrency (deletes g) c)
      ≡ specified max_concurrency (deletes g) (registry c)
unfolding delete_group
deletes-specified max_concurrency g c =
    Search-specified max_concurrency g c _ (erase_group-Search c.table.ngroup 0 g c.table)

perform-specified :
    (max_concurrency : ℕ) (op : Operation) (c : Control)
    → IsFilled c.table
    → registry (perform max_concurrency op c) ≡ specified max_concurrency op (registry c)
unfolding stop_groups
perform-specified max_concurrency (adds g) c h = adds-specified max_concurrency g c h
perform-specified max_concurrency (deletes g) c h = deletes-specified max_concurrency g c
perform-specified max_concurrency stops c h = refl

-- The table of groups implements a collection without an order. After any additions, removals and
-- stops, from a table whose slots in use hold groups, it holds the groups that the collection holds,
-- as often, and the program was asked to signal and to delete exactly what the collection asks for.
pub perform_all-specified :
    (max_concurrency : ℕ) (ops : List Operation) (c : Control)
    → IsFilled c.table
    → registry (perform_all max_concurrency ops c) ≡ all_specified max_concurrency ops (registry c)
perform_all-specified max_concurrency [] c h = refl
perform_all-specified max_concurrency (op ∷ ops) c h =
    perform_all-specified max_concurrency ops (perform max_concurrency op c)
      (perform-IsFilled max_concurrency op c h)
    ∙ ap (all_specified max_concurrency ops) (perform-specified max_concurrency op c h)
