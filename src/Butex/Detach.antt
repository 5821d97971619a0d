-- ===== src/Butex/Detach.antt =====
-- dbrpc/butex.cpp: the waiter of a pthread, on its stack, when `wait_pthread` returns.
use brpc_source_code_analysi.Prelude.{
  ℕ, ◌≡◌, true, false, none, some, List, [], ◌∷◌, arith, inl, inr, Bool-cases, Option-cases,
}
use brpc_source_code_analysi.Butex.State.{Mem, Env, timeout}
use brpc_source_code_analysi.Butex.Wait.{erase_from_butex}
use brpc_source_code_analysi.Butex.Erase.{erase-container}
use brpc_source_code_analysi.Butex.Pthread.{
  Sleep, WaitResult, wait_pthread, is_signalled, timed_out,
}

-- A signal is sent after the waiter was taken out.
abbrev pub IsSignalledLast : ℕ → Mem → Type 0
IsSignalledLast pw m = is_signalled m pw ≡ true → m.container pw ≡ none

-- What the waiting thread relies on: other threads signal it only after they took its waiter out,
-- and never queue it themselves.
pub record IsPolite (pw : ℕ) (others : Mem → Mem) : Type 0 where
  pub signals_last : (m : Mem) → IsSignalledLast pw m → IsSignalledLast pw (others m)
  pub never_queues : (m : Mem) → m.container pw ≡ none → (others m).container pw ≡ none

abbrev pub AllPolite : ℕ → List Sleep → Type 0
AllPolite pw [] = Unit {0}
AllPolite pw (s ∷ rest) = IsPolite pw s.meanwhile × IsPolite pw s.after_erasing × AllPolite pw rest

-- When `wait_pthread` returns, its waiter belongs to no butex.
pub wait_pthread-detached :
    (env : Env) (pw : ℕ) (script : List Sleep) (m m' : Mem) (rc : WaitResult)
    → AllPolite pw script
    → IsSignalledLast pw m
    → wait_pthread env pw script m ≡ some (m', rc)
    → m'.container pw ≡ none
unfolding wait_pthread
wait_pthread-detached env pw [] m m' rc p h e = cc
wait_pthread-detached env pw (s ∷ rest) m m' rc p h e =
    let m1 = s.meanwhile m in
    let h1 : IsSignalledLast pw m1 = p.0.signals_last m h in
    elim (Bool-cases (is_signalled m1 pw)) [
      | inl sig ↦ ground (arith, h1 sig)
      | inr unsig ↦ elim (Bool-cases (timed_out s.result)) [
        | inl late ↦
            elim (Option-cases
              (erase_from_butex env s.erasing s.erase_rounds pw false timeout m1)) [
                | inl stuck ↦ ground arith
                | inr ((m2, erased), run) ↦
                    let out =
                      erase-container env s.erasing s.erase_rounds pw false timeout m1 m2 erased
                        run in
                    let out' = p.1.never_queues m2 out in
                    ground (
                      arith,
                      out,
                      out',
                      wait_pthread-detached env pw rest (s.after_erasing m2) m' rc p.2 (λ k. out'),
                    )
              ]
        | inr early ↦ ground (arith, wait_pthread-detached env pw rest m1 m' rc p.2 h1)
      ]
    ]
