-- ===== src/Api/Batch.antt =====
-- dbrpc/bthread.cpp: the NOSIGNAL tasks of a thread that is no worker, and `bthread_flush`.
use mathlib.Core.Path.{subst}
use mathlib.Core.Option.{some-injective}
use brpc_source_code_analysi.Prelude.{
  ℕ, suc, ◌≡◌, ◌≢◌, ◌⊎◌, refl, sym, ap, ◌==◌, if◌then◌else◌, Bool, true, false, Option, none, some,
  List, [], ◌∷◌, ◌++◌, arith, inl, inr, Bool-cases, ==_eq,
}
use brpc_source_code_analysi.Api.Dispatch.{
  Thread, GroupCall, start_foreground, start_background, start_background_remote,
  flush_nosignal_tasks, flush_nosignal_tasks_remote, start_from_non_worker, bthread_start_urgent,
  bthread_start_background, bthread_flush,
}

-- What a thread may call.
pub data Op : Type 0 where
  urgent : (has_control : Bool) (chosen : ℕ) (nosignal : Bool) → Op
  background : (has_control : Bool) (chosen : ℕ) (nosignal : Bool) → Op
  flush : Op

abbrev pub perform : Op → Thread → Thread × List GroupCall
perform (urgent has_control chosen nosignal) t = bthread_start_urgent has_control chosen nosignal t
perform (background has_control chosen nosignal) t =
    bthread_start_background has_control chosen nosignal t
perform flush t = bthread_flush t

-- The calls of a sequence of operations, newest first; the sequence is newest first too.
abbrev pub perform_all : List Op → Thread → Thread × List GroupCall
perform_all [] t = (t, [])
perform_all (op ∷ ops) t =
    let (t', calls) = perform_all ops t in let (t'', more) = perform op t' in (t'', more ++ calls)

-- The NOSIGNAL tasks put into the remote queue of a group since its last flush.
abbrev pub unflushed : ℕ → List GroupCall → ℕ
unflushed g [] = 0
unflushed g (start_background_remote h true ∷ cs) =
    if h == g then suc (unflushed g cs) else unflushed g cs
unflushed g (flush_nosignal_tasks_remote h ∷ cs) = if h == g then 0 else unflushed g cs
unflushed g (start_background_remote h false ∷ cs) = unflushed g cs
unflushed g (start_foreground h ∷ cs) = unflushed g cs
unflushed g (start_background h ∷ cs) = unflushed g cs
unflushed g (flush_nosignal_tasks h ∷ cs) = unflushed g cs

abbrev the_thread : Option ℕ → Option ℕ → Thread
the_thread own kept = record { tls_task_group = own; tls_task_group_nosignal = kept }

-- A thread that is no worker, with the group that it remembers.
abbrev pub outsider : Option ℕ → Thread
outsider kept = the_thread none kept

-- Every group with tasks that wait for a flush is the one that the thread remembers.
Remembered : Thread → List GroupCall → Type 0
Remembered t cs =
    (t.tls_task_group ≡ none) × ((g : ℕ) → t.tls_task_group_nosignal ≢ some g → unflushed g cs ≡ 0)

-- A NOSIGNAL start, for each of what the thread may remember.
nosignal-Remembered :
    (chosen : ℕ) (kept : Option ℕ) (cs : List GroupCall)
    → let t = outsider kept in
      Remembered t cs
      → Remembered
          (start_from_non_worker true chosen true t).0
          ((start_from_non_worker true chosen true t).1 ++ cs)
unfolding start_from_non_worker Remembered
nosignal-Remembered chosen none cs (worker, idle) = (
  refl,
  λ g other.
      let apart : chosen ≢ g = λ e. other (ap some e) in
      let nothing : unflushed g cs ≡ 0 = idle g (λ e. ground (arith, e)) in
      ground (arith, apart, nothing),
)
nosignal-Remembered chosen (some h) cs (worker, idle) = (
  refl,
  λ g other. let apart : h ≢ g = λ e. other (ap some e) in ground (arith, apart, idle g other),
)

start-Remembered :
    (has_control : Bool) (chosen : ℕ) (nosignal : Bool) (kept : Option ℕ) (cs : List GroupCall)
    → let t = outsider kept in
      Remembered t cs
      → Remembered
          (start_from_non_worker has_control chosen nosignal t).0
          ((start_from_non_worker has_control chosen nosignal t).1 ++ cs)
unfolding start_from_non_worker Remembered
start-Remembered false chosen nosignal kept cs idle = idle
start-Remembered true chosen false kept cs (worker, idle) = (worker, idle)
start-Remembered true chosen true kept cs idle = nosignal-Remembered chosen kept cs idle

flush-Remembered :
    (kept : Option ℕ) (cs : List GroupCall)
    → let t = outsider kept in
      Remembered t cs
      → let (t', more) = bthread_flush t in
        Remembered t' (more ++ cs) × ((g : ℕ) → unflushed g (more ++ cs) ≡ 0)
unfolding bthread_flush Remembered
flush-Remembered none cs (worker, idle) =
    let nothing : (g : ℕ) → unflushed g cs ≡ 0 = λ g. idle g (λ e. ground (arith, e)) in
    ((worker, λ g _. nothing g), nothing)
flush-Remembered (some h) cs (worker, idle) =
    let nothing : (g : ℕ) → unflushed g (flush_nosignal_tasks_remote h ∷ cs) ≡ 0 = λ g.
      elim (Bool-cases (h == g)) [
        | inl flushed ↦ ground (arith, flushed)
        | inr other ↦
            ground (arith, other, idle g (λ e. ground (arith, other, some-injective _ _ e)))
      ] in
    ((refl, λ g _. nothing g), nothing)

is_outsider :
    (t : Thread) (cs : List GroupCall) → Remembered t cs → t ≡ outsider t.tls_task_group_nosignal
unfolding Remembered
is_outsider t cs (worker, _) = ap (λ o. the_thread o t.tls_task_group_nosignal) worker

perform-outsider :
    (op : Op) (kept : Option ℕ) (cs : List GroupCall)
    → Remembered (outsider kept) cs
    → Remembered (perform op (outsider kept)).0 ((perform op (outsider kept)).1 ++ cs)
unfolding bthread_start_urgent bthread_start_background
perform-outsider (urgent has_control chosen nosignal) kept cs idle =
    start-Remembered has_control chosen nosignal kept cs idle
perform-outsider (background has_control chosen nosignal) kept cs idle =
    start-Remembered has_control chosen nosignal kept cs idle
perform-outsider flush kept cs idle = let (still, _) = flush-Remembered kept cs idle in still

perform-Remembered :
    (op : Op) (t : Thread) (cs : List GroupCall)
    → Remembered t cs
    → Remembered (perform op t).0 ((perform op t).1 ++ cs)
perform-Remembered op t cs idle =
    let e = is_outsider t cs idle in
    subst (λ u. Remembered (perform op u).0 ((perform op u).1 ++ cs)) (sym e)
      (perform-outsider op t.tls_task_group_nosignal cs (subst (λ u. Remembered u cs) e idle))

perform_all-Remembered :
    (ops : List Op)
    → Remembered (perform_all ops (outsider none)).0 (perform_all ops (outsider none)).1
unfolding Remembered
perform_all-Remembered [] = (refl, λ g _. refl)
perform_all-Remembered (op ∷ ops) =
    perform-Remembered op (perform_all ops (outsider none)).0 (perform_all ops (outsider none)).1
      (perform_all-Remembered ops)

flushed_outsider :
    (t : Thread) (cs : List GroupCall)
    → Remembered t cs
    → (g : ℕ) → unflushed g ((bthread_flush t).1 ++ cs) ≡ 0
flushed_outsider t cs idle g =
    let e = is_outsider t cs idle in
    let (_, nothing) =
      flush-Remembered t.tls_task_group_nosignal cs (subst (λ u. Remembered u cs) e idle) in
    subst (λ u. unflushed g ((bthread_flush u).1 ++ cs) ≡ 0) (sym e) (nothing g)

remembers : (kept : Option ℕ) (g : ℕ) → (kept ≡ some g) ⊎ (kept ≢ some g)
remembers none g = inr (λ e. ground (arith, e))
remembers (some h) g = elim (Bool-cases (h == g)) [
  | inl here ↦ inl (ap some (==_eq h g here))
  | inr other ↦ inr (λ e. ground (arith, other, some-injective _ _ e))
]

-- Whatever a thread that is no worker starts, in any order and however the control chooses groups,
-- the NOSIGNAL tasks that wait for a flush are all in the group that the thread remembers, and after
-- a `bthread_flush` none waits in any group.
pub bthread_flush_complete :
    (ops : List Op) (g : ℕ)
    → ((perform_all ops (outsider none)).0.tls_task_group_nosignal ≡ some g
        ⊎ (unflushed g (perform_all ops (outsider none)).1 ≡ 0))
      × (unflushed g (perform_all (flush ∷ ops) (outsider none)).1 ≡ 0)
unfolding Remembered
bthread_flush_complete ops g =
    let (worker, idle) = perform_all-Remembered ops in
    (
      elim (remembers (perform_all ops (outsider none)).0.tls_task_group_nosignal g) [
        | inl yes_it_is ↦ inl yes_it_is
        | inr other ↦ inr (idle g other)
      ],
      flushed_outsider (perform_all ops (outsider none)).0 (perform_all ops (outsider none)).1
          (worker, idle) g,
    )
