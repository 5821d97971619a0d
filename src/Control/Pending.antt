-- ===== src/Control/Pending.antt =====
-- dbrpc/task_control.cpp and dbrpc/task_control.h: `exposed_pending_time` and
-- `create_exposed_pending_time`.
--
-- `new LatencyRecorder` gives the address `fresh`. `stale` says that the load outside the lock still
-- read NULL though another thread has stored a recorder by now.
use brpc_source_code_analysi.Prelude.{
  ℕ, ◌≡◌, refl, ap, if◌then◌else◌, Bool, Option, none, some, List, [], ◌∷◌, arith,
}

-- `_pending_time` and the recorders that were exposed, newest first.
pub record Pending : Type 0 where
  pub pending_time : Option ℕ
  pub exposed : List ℕ

unfoldable pub create_exposed_pending_time : (fresh : ℕ) → Pending → Pending × ℕ
create_exposed_pending_time fresh s = elim s.pending_time [
  | some pt ↦ (s, pt)
  | none ↦ (record { pending_time = some fresh; exposed = fresh ∷ s.exposed }, fresh)
]

unfoldable pub exposed_pending_time : (stale : Bool) (fresh : ℕ) → Pending → Pending × ℕ
exposed_pending_time stale fresh s = elim s.pending_time [
  | some pt ↦ if stale then create_exposed_pending_time fresh s else (s, pt)
  | none ↦ create_exposed_pending_time fresh s
]

-- A call, by what it reads first and what it allocates.
abbrev pub PendingCall : Type 0
PendingCall = Bool × ℕ

-- The calls of all threads, in the order in which they take the lock; the answers, in that order.
abbrev pub all_calls : List PendingCall → Pending → Pending × List ℕ
all_calls [] s = (s, [])
all_calls ((stale, fresh) ∷ calls) s =
    let (s', pt) = exposed_pending_time stale fresh s in
    let (s'', pts) = all_calls calls s' in (s'', pt ∷ pts)

-- The answers are all this recorder.
abbrev pub AllAre : ℕ → List ℕ → Type 0
AllAre pt [] = Unit {0}
AllAre pt (x ∷ xs) = (x ≡ pt) × AllAre pt xs

kept :
    (stale : Bool) (fresh pt : ℕ) (s : Pending)
    → s.pending_time ≡ some pt
    → exposed_pending_time stale fresh s ≡ (s, pt)
unfolding exposed_pending_time create_exposed_pending_time
kept stale fresh pt s e = ground (arith, e)

all_calls-kept :
    (calls : List PendingCall) (pt : ℕ) (s : Pending)
    → s.pending_time ≡ some pt
    → ((all_calls calls s).0 ≡ s) × AllAre pt (all_calls calls s).1
all_calls-kept [] pt s e = (refl, tt)
all_calls-kept ((stale, fresh) ∷ calls) pt s e =
    rw (kept stale fresh pt s e)
      (let (same_state, answers) = all_calls-kept calls pt s e in (same_state, (refl, answers)))

-- Whatever calls of `exposed_pending_time` race for the first creation: all of them answer the
-- recorder of the one that took the lock first, and this recorder is exposed once, and no other.
pub exposed_pending_time-once :
    (stale : Bool) (fresh : ℕ) (calls : List PendingCall) (s : Pending)
    → s.pending_time ≡ none
    → ((all_calls ((stale, fresh) ∷ calls) s).0.pending_time ≡ some fresh)
      × ((all_calls ((stale, fresh) ∷ calls) s).0.exposed ≡ fresh ∷ s.exposed)
      × AllAre fresh (all_calls ((stale, fresh) ∷ calls) s).1
unfolding exposed_pending_time create_exposed_pending_time
exposed_pending_time-once stale fresh calls s e =
    let s1 : Pending = record { pending_time = some fresh; exposed = fresh ∷ s.exposed } in
    let made : exposed_pending_time stale fresh s ≡ (s1, fresh) = ground (arith, e) in
    let (same_state, answers) = all_calls-kept calls fresh s1 refl in
    rw made (
      ap (λ (x : Pending). x.pending_time) same_state,
      ap (λ (x : Pending). x.exposed) same_state,
      (refl, answers),
    )
