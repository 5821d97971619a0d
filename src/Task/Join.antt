-- ===== src/Task/Join.antt =====
-- dbrpc/task_group.cpp: what `join` answers.
use mathlib.Core.Path.{subst}
use brpc_source_code_analysi.Prelude.{
  ℕ, ◌≡◌, ◌≢◌, sym, ◌∙◌, arith, ◌==◌, ◌&&◌, ◌++◌, ◌⊎◌, not, Bool, true, false, Option, some, List,
  [], ◌∷◌, same, Bool-cases, Option-cases, inl, inr,
}
use brpc_source_code_analysi.Task.Meta.{TaskMeta, TidCodec, Pool, address_meta, get_version}
use brpc_source_code_analysi.Task.Life.{
  join, join_loop, JoinResult, joined, join_einval, join_errno, Waited, ewouldblock, eintr,
}
use brpc_source_code_analysi.Task.Identity.{IsOver}

-- The slot has a version other than the one expected.
abbrev pub IsPast : (slot expected : ℕ) → Pool → Type 0
IsPast slot expected p = (m : TaskMeta) × (p slot ≡ some m) × (m.version_butex ≢ expected)

not-IsPast :
    (slot expected : ℕ) (p : Pool) (m : TaskMeta)
    → p slot ≡ some m
    → (m.version_butex == expected) ≡ false
    → IsPast slot expected p
not-IsPast slot expected p m found differs = (m, found, λ e. ground (arith, differs, e))

result-IsPast :
    (slot expected : ℕ) (p p' : Pool) → p ≡ p' → IsPast slot expected p → IsPast slot expected p'
result-IsPast slot expected p p' e over = subst (λ q. IsPast slot expected q) e over

-- The test after a wait.
abbrev fails : Waited → Bool
fails w = w.failed && not (w.errno == ewouldblock) && not (w.errno == eintr)

join_loop-IsPast :
    (script : List (Pool × Waited)) (slot expected : ℕ) (p p' : Pool)
    → join_loop script slot expected p ≡ some (p', joined)
    → IsPast slot expected p'
unfolding join_loop
join_loop-IsPast [] slot expected p p' e = elim (Option-cases (p slot)) [
  | inl missing ↦ absurd (ground (arith, missing, e))
  | inr (m, found) ↦ elim (Bool-cases (m.version_butex == expected)) [
    | inl same_version ↦ absurd (ground (arith, found, same_version, e))
    | inr differs ↦
        result-IsPast slot expected p p' (ground (arith, found, differs, e))
          (not-IsPast slot expected p m found differs)
  ]
]
join_loop-IsPast ((q, w) ∷ rest) slot expected p p' e = elim (Option-cases (p slot)) [
  | inl missing ↦ absurd (ground (arith, missing, e))
  | inr (m, found) ↦ elim (Bool-cases (m.version_butex == expected)) [
    | inr differs ↦
        result-IsPast slot expected p p' (ground (arith, found, differs, e))
          (not-IsPast slot expected p m found differs)
    | inl same_version ↦ elim (Bool-cases (fails w)) [
      | inl failing ↦ absurd (ground (arith, found, same_version, failing, e))
      | inr retried ↦
          join_loop-IsPast rest slot expected q p' (ground (arith, found, same_version, retried, e))
    ]
  ]
]

-- The loop goes on after a wait that succeeded, or that EWOULDBLOCK or EINTR ended.
abbrev pub IsRetried : Waited → Type 0
IsRetried w = (w.failed ≡ false) ⊎ (w.errno ≡ ewouldblock) ⊎ (w.errno ≡ eintr)

-- The pool never frees memory: the slot has a meta after each wait.
abbrev pub AllRetried : (slot : ℕ) → List (Pool × Waited) → Type 0
AllRetried slot [] = Unit {0}
AllRetried slot ((p, w) ∷ rest) =
    IsRetried w × ((m : TaskMeta) × (p slot ≡ some m)) × AllRetried slot rest

-- The slot has the version expected, before the waits and after each.
abbrev pub IsCurrent : (slot expected : ℕ) → Pool → Type 0
IsCurrent slot expected p = (m : TaskMeta) × (p slot ≡ some m) × (m.version_butex ≡ expected)

abbrev pub AllCurrent : (slot expected : ℕ) → Pool → List (Pool × Waited) → Type 0
AllCurrent slot expected p [] = IsCurrent slot expected p
AllCurrent slot expected p ((q, w) ∷ rest) =
    IsCurrent slot expected p × AllCurrent slot expected q rest

abbrev pub last_pool : Pool → List (Pool × Waited) → Pool
last_pool p [] = p
last_pool p ((q, w) ∷ rest) = last_pool q rest

-- A wait that fails with this errno.
abbrev pub failing : ℕ → Waited
failing e = record { failed = true; errno = e }

-- What happens while `join` waits, and its answer: the waits are retried until the run is over, or, while
-- it is not, one fails otherwise.
pub data Course (slot expected : ℕ) (p : Pool) : List (Pool × Waited) → JoinResult → Type 0 where
  goes_over :
      (waits : List (Pool × Waited)) (m : TaskMeta)
      → p slot ≡ some m
      → AllRetried slot waits
      → IsPast slot expected (last_pool p waits)
      → Course slot expected p waits joined
  fails_with :
      (waits rest : List (Pool × Waited)) (q : Pool) (e : ℕ)
      → AllRetried slot waits
      → AllCurrent slot expected p waits
      → e ≢ ewouldblock
      → e ≢ eintr
      → Course slot expected p (waits ++ (q, failing e) ∷ rest) (join_errno e)

retried-goes_on : (w : Waited) → IsRetried w → fails w ≡ false
retried-goes_on w h = ground (arith, h)

over-returns :
    (slot expected : ℕ) (waits : List (Pool × Waited)) (p : Pool) (m : TaskMeta)
    → p slot ≡ some m
    → AllRetried slot waits
    → IsPast slot expected (last_pool p waits)
    → (p' : Pool) × (join_loop waits slot expected p ≡ some (p', joined))
unfolding join_loop
over-returns slot expected [] p m found retried (m', found', ne) = (p, ground (arith, found', ne))
over-returns slot expected ((q, w) ∷ rest) p m found (goes_on, (mq, found_q), more) over =
    let (p', returned) = over-returns slot expected rest q mq found_q more over in
    elim (Bool-cases (m.version_butex == expected)) [
      | inl same_version ↦
          (p', ground (arith, found, same_version, retried-goes_on w goes_on, returned))
      | inr differs ↦ (p, ground (arith, found, differs))
    ]

failure-returns :
    (slot expected : ℕ) (waits rest : List (Pool × Waited)) (p q : Pool) (e : ℕ)
    → AllRetried slot waits
    → AllCurrent slot expected p waits
    → e ≢ ewouldblock
    → e ≢ eintr
    → join_loop (waits ++ (q, failing e) ∷ rest) slot expected p ≡ some (q, join_errno e)
unfolding join_loop
failure-returns slot expected [] rest p q e retried (m, found, current) not_block not_intr =
    ground (arith, found, current, not_block, not_intr)
failure-returns slot expected ((p1, w) ∷ waits) rest p q e (goes_on, there, more)
      ((m, found, current), later) not_block not_intr =
    ground (
      arith,
      found,
      current,
      retried-goes_on w goes_on,
      failure-returns slot expected waits rest p1 q e more later not_block not_intr,
    )

first_meta :
    (slot expected : ℕ) (p : Pool) (script : List (Pool × Waited)) (r : JoinResult)
    → Course slot expected p script r
    → (m : TaskMeta) × (p slot ≡ some m)
first_meta slot expected p script r (goes_over waits m found retried over) = (m, found)
first_meta slot expected p script r (fails_with [] rest q e _ (m, found, _) _ _) = (m, found)
first_meta slot expected p script r (fails_with (w ∷ ws) rest q e _ ((m, found, _), _) _ _) =
    (m, found)

Course-returns :
    (slot expected : ℕ) (p : Pool) (script : List (Pool × Waited)) (r : JoinResult)
    → Course slot expected p script r
    → (p' : Pool) × (join_loop script slot expected p ≡ some (p', r))
Course-returns slot expected p script r (goes_over waits m found retried over) =
    over-returns slot expected waits p m found retried over
Course-returns slot expected p script r
      (fails_with waits rest q e retried current not_block not_intr) =
    (q, failure-returns slot expected waits rest p q e retried current not_block not_intr)

module _ (C : TidCodec) where
  open C use {get_slot}

  join_is_loop :
      (script : List (Pool × Waited)) (self : Option ℕ) (tid : ℕ) (p : Pool) (m : TaskMeta)
      → tid ≢ 0
      → same self (some tid) ≡ false
      → p (get_slot tid) ≡ some m
      → join C script self tid p ≡ join_loop script (get_slot tid) (get_version tid) p
  unfolding join address_meta
  join_is_loop script self tid p m not_zero other found = ground (arith, not_zero, other, found)

  -- `join` answers 0 only when the run that the identifier names is over. The caller does not join
  -- itself and the identifier is not 0.
  pub join_joined :
      (script : List (Pool × Waited)) (self : Option ℕ) (tid : ℕ) (p p' : Pool)
      → tid ≢ 0
      → same self (some tid) ≡ false
      → join C script self tid p ≡ some (p', joined)
      → IsOver C tid p'
  unfolding join address_meta
  join_joined script self tid p p' not_zero other e = elim (Option-cases (p (get_slot tid))) [
    | inl missing ↦ absurd (ground (arith, not_zero, missing, e))
    | inr (m, found) ↦
        join_loop-IsPast script (get_slot tid) (get_version tid) p p'
          (sym (join_is_loop script self tid p m not_zero other found) ∙ e)
  ]

  -- The run that the identifier names is over when the answer is 0.
  abbrev pub IsAnswer : ℕ → Pool → JoinResult → Type 0
  IsAnswer tid p joined = IsOver C tid p
  IsAnswer tid p join_einval = Unit {0}
  IsAnswer tid p (join_errno e) = Unit {0}

  returned-IsAnswer :
      (script : List (Pool × Waited)) (self : Option ℕ) (tid : ℕ) (p p' : Pool) (r : JoinResult)
      → tid ≢ 0
      → same self (some tid) ≡ false
      → join C script self tid p ≡ some (p', r)
      → IsAnswer tid p' r
  returned-IsAnswer script self tid p p' joined not_zero other e =
      join_joined script self tid p p' not_zero other e
  returned-IsAnswer script self tid p p' join_einval not_zero other e = tt
  returned-IsAnswer script self tid p p' (join_errno n) not_zero other e = tt

  -- `join` returns. When each wait succeeds or ends with EWOULDBLOCK or EINTR and the version has changed
  -- by the end of the last one, it answers 0, and the run is over then. When, after such waits and with
  -- the version unchanged, a wait fails with another errno, it answers this errno. The caller does not
  -- join itself and the identifier is not 0.
  pub join_returns :
      (script : List (Pool × Waited)) (self : Option ℕ) (tid : ℕ) (p : Pool) (r : JoinResult)
      → tid ≢ 0
      → same self (some tid) ≡ false
      → Course (get_slot tid) (get_version tid) p script r
      → (p' : Pool) × (join C script self tid p ≡ some (p', r)) × IsAnswer tid p' r
  join_returns script self tid p r not_zero other course =
      let (m, found) = first_meta (get_slot tid) (get_version tid) p script r course in
      let (p', returned) = Course-returns (get_slot tid) (get_version tid) p script r course in
      let e = join_is_loop script self tid p m not_zero other found ∙ returned in
      (p', e, returned-IsAnswer script self tid p p' r not_zero other e)
