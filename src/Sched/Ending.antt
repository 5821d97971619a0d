-- ===== src/Sched/Ending.antt =====
-- dbrpc/task_group.cpp: one round of `task_runner`, from the function of a task to `ending_sched`.
--
-- The function of a task may do anything to the pool and the groups and may end in another group. A
-- return and an ExitException go on alike, since the value is dropped; any other exception ends the
-- program. Statistics and the log line are left out. `LocalStorage` and `return_keytable` are defined
-- outside the repository: the first is an interface, and `destructors` is what the second runs. The
-- group is not read again after `return_keytable`, so it stays the current one.
use mathlib.Core.Path.{subst}
use brpc_source_code_analysi.Prelude.{
  ℕ, ◌≡◌, ◌≢◌, ap, ◌∙◌, arith, Option, none, some, List, [], ◌∷◌, inl, inr, Option-cases,
}
use brpc_source_code_analysi.Task.Meta.{Pool}
use brpc_source_code_analysi.Task.Life.{end_task, next_version}
use brpc_source_code_analysi.Sched.Switch.{
  State, Group, release_last_context, Switched, set_task, new_stack, hand_over, account,
  exchange_storage, sched_to, ending_sched,
}
use brpc_source_code_analysi.Sched.Leave.{set_remained}

-- The field `keytable` of `LocalStorage`: read, and set to NULL.
pub record LocalStorage : Type 0 where
  pub keytable : ℕ → Option ℕ
  pub without_keytable : ℕ → ℕ
  pub keytable-without : (x : ℕ) → keytable (without_keytable x) ≡ none

-- What a round does for a task, newest first: the call of its function, with the key table that is in
-- `tls_bls` when it ends, `return_keytable`,
-- `butex_wake_except(version_butex, 0)`, with the version that the joiners find, and `_nbthread << -1`.
pub data RunnerCall : Type 0 where
  runs : (task : ℕ) (keytable_left : Option ℕ) → RunnerCall
  returns_keytable : (task keytable : ℕ) → RunnerCall
  wakes_joiners : (task : ℕ) (version : Option ℕ) → RunnerCall
  uncounts : RunnerCall

pub record World : Type 0 where
  pub pool : Pool
  pub sched : State
  pub calls : List RunnerCall

abbrev pub version_of : Pool → ℕ → Option ℕ
version_of p task = elim (p task) [ none ↦ none | some m ↦ some m.version_butex ]

abbrev pub keytable_call : ℕ → Option ℕ → List RunnerCall → List RunnerCall
keytable_call task none calls = calls
keytable_call task (some kt) calls = returns_keytable task kt ∷ calls

-- Whole rounds: the function of a task runs, then the key table that it left is returned, if it left one,
-- then its joiners are woken once and find a version that is not 0, then the task is no longer counted.
pub data Rounds : List RunnerCall → Type 0 where
  no_round : Rounds []
  one_more :
      (task : ℕ) (version kt : Option ℕ) (calls : List RunnerCall)
      → version ≢ some 0
      → Rounds calls
      → Rounds
          (uncounts ∷ wakes_joiners task version ∷ keytable_call task kt (runs task kt ∷ calls))

version_of-end_task : (task : ℕ) (p : Pool) → version_of (end_task task p) task ≢ some 0
unfolding end_task next_version
version_of-end_task task p e = elim (Option-cases (p task)) [
  | inl nothing ↦ ground (arith, nothing, e)
  | inr (m, has) ↦ ground (arith, has, e)
]

module _ (K : LocalStorage) (destructors : ℕ → Pool × State → Pool × State) where
  abbrev set_keytables_null : ℕ → State → State
  set_keytables_null task s =
      record (set_task task
        (record (s.tasks task) { local_storage = K.without_keytable (s.tasks task).local_storage })
        s) { tls_bls = K.without_keytable s.tls_bls }

  -- `KeyTable* kt = tls_bls.keytable; if (kt != NULL){ … }`
  unfoldable pub clean_tls : ℕ → Pool × State → (Pool × State) × Option ℕ
  clean_tls task x = elim (K.keytable (x.1.tls_bls)) [
    | none ↦ (x, none)
    | some kt ↦ let (pool, s) = destructors kt x in ((pool, set_keytables_null task s), some kt)
  ]

  clean_tls-NoKeytable :
      (task : ℕ) (x : Pool × State) → K.keytable (clean_tls task x).0.1.tls_bls ≡ none
  unfolding clean_tls
  clean_tls-NoKeytable task x = elim (Option-cases (K.keytable (x.1.tls_bls))) [
    | inl nothing ↦ ground (arith, nothing)
    | inr (kt, has) ↦ ground (arith, has, K.keytable-without (destructors kt x).1.tls_bls)
  ]

  clean_tls-answer : (task : ℕ) (x : Pool × State) → (clean_tls task x).1 ≡ K.keytable x.1.tls_bls
  unfolding clean_tls
  clean_tls-answer task x = elim (Option-cases (K.keytable (x.1.tls_bls))) [
    | inl nothing ↦ ground (arith, nothing)
    | inr (kt, has) ↦ ground (arith, has)
  ]

  module _ (user : ℕ → Pool × State → Pool × State) (next : ℕ → State → ℕ) (now : ℕ → ℕ)
      (pthread_type : ℕ) (get_stack : ℕ → ℕ → Option ℕ) where
    -- When the function of the current task has ended and its key table is returned.
    abbrev pub cleaned : World → (Pool × State) × Option ℕ
    cleaned w = let task = w.sched.group.cur_meta in clean_tls task (user task (w.pool, w.sched))

    unfoldable pub run_task : (round : ℕ) → World → World × Switched
    run_task round w =
        let task = w.sched.group.cur_meta in
        let ((pool, s), kt) = cleaned w in
        let ended = end_task task pool in
        let (s', how) =
          ending_sched pthread_type (get_stack round) (now round) (next round s)
            (set_remained (release_last_context task) s) in
        (
          record {
            pool = ended;
            sched = s';
            calls =
                uncounts
                ∷ wakes_joiners task (version_of ended task)
                ∷ keytable_call task kt
                    (runs task (K.keytable (user task (w.pool, w.sched)).1.tls_bls) ∷ w.calls);
          },
          how,
        )

    pub run_task-Rounds :
        (round : ℕ) (w : World) → Rounds w.calls → Rounds (run_task round w).0.calls
    unfolding run_task
    run_task-Rounds round w so_far =
        let task = w.sched.group.cur_meta in
        let version = version_of (end_task task (cleaned w).0.0) task in
        let kt = (cleaned w).1 in
        subst
          (λ (left : Option ℕ). Rounds (
            uncounts
            ∷ wakes_joiners task version
            ∷ keytable_call task kt (runs task left ∷ w.calls)))
          (clean_tls-answer task (user task (w.pool, w.sched)))
          (one_more task version kt w.calls (version_of-end_task task (cleaned w).0.0) so_far)

    hand_over-storage :
        (get : ℕ → Option ℕ) (n : ℕ) (s : State)
        → ((hand_over pthread_type get n s).tls_bls ≡ s.tls_bls)
          × ((hand_over pthread_type get n s).group ≡ s.group)
    unfolding hand_over new_stack
    hand_over-storage get n s = ground arith

    sched_to-current :
        (at n : ℕ) (s : State)
        → ((sched_to at n s).0.group.cur_meta ≡ n)
          × ((sched_to at n s).0.group.main_task ≡ s.group.main_task)
    unfolding sched_to account exchange_storage
    sched_to-current at n s = ground arith

    -- The task that the scheduler picks is the current one, and the main task is that of the group in
    -- which the function of the task ended.
    pub run_task-current :
        (round : ℕ) (w : World)
        → ((run_task round w).0.sched.group.cur_meta ≡ next round (cleaned w).0.1)
          × ((run_task round w).0.sched.group.main_task ≡ (cleaned w).0.1.group.main_task)
    unfolding run_task ending_sched set_remained
    run_task-current round w =
        let task = w.sched.group.cur_meta in
        let s0 = set_remained (release_last_context task) (cleaned w).0.1 in
        let n = next round (cleaned w).0.1 in
        let s1 = hand_over pthread_type (get_stack round) n s0 in
        let (cur, main) = sched_to-current (now round) n s1 in
        (cur, main ∙ ap (λ (g : Group). g.main_task) (hand_over-storage (get_stack round) n s0).1)

    sched_to-saves :
        (at n : ℕ) (s : State)
        → n ≢ s.group.cur_meta
        → ((sched_to at n s).0.tasks s.group.cur_meta).local_storage ≡ s.tls_bls
    unfolding sched_to account exchange_storage
    sched_to-saves at n s other = ground (arith, other)

    -- After a round whose function ends with the task still the current one of its group, and that
    -- switches to another task, the storage that the ended task leaves has no key table.
    pub run_task-NoKeytable :
        (round : ℕ) (w : World)
        → (cleaned w).0.1.group.cur_meta ≡ w.sched.group.cur_meta
        → next round (cleaned w).0.1 ≢ w.sched.group.cur_meta
        → K.keytable ((run_task round w).0.sched.tasks w.sched.group.cur_meta).local_storage ≡ none
    unfolding run_task ending_sched set_remained
    run_task-NoKeytable round w current other =
        let task = w.sched.group.cur_meta in
        let s = (cleaned w).0.1 in
        let s0 = set_remained (release_last_context task) s in
        let n = next round s in
        let kept = hand_over-storage (get_stack round) n s0 in
        let s1 = hand_over pthread_type (get_stack round) n s0 in
        let here : s1.group.cur_meta ≡ task = ap (λ (g : Group). g.cur_meta) kept.1 ∙ current in
        let saved = sched_to-saves (now round) n s1 (λ e. other (e ∙ here)) in
        ap K.keytable (
          subst (λ (a : ℕ). ((sched_to (now round) n s1).0.tasks a).local_storage ≡ s1.tls_bls) here
            saved
          ∙ kept.0)
        ∙ clean_tls-NoKeytable task (user task (w.pool, w.sched))
