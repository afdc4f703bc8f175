-- ===== src/EventLoop/Laws.antt =====
-- The order in which an event loop runs its jobs, src/net/event_loop.rs.
use sickle.Base.{
  ℕ, ◌+◌, ◌≡◌, refl, false, some, List, [], ◌∷◌, ◌++◌, arith, length, All, get_elem?, ok,
  length-append, append_assoc, ErrorKind, failure, is_interrupted, true, if◌then◌else◌, sym, ◌∙◌,
}
use sickle.Event.{TokenType, ttype_eq, Job, JobEntry}
use sickle.Timer.{Timer}
use sickle.Ready
use sickle.EventLoop.Defs.{
  Call, job, EventLoop, invoke, process_from, io_process, Polled, run_once, run_loop,
}

-- The entry's job runs with the entry's readiness.
run_job : EventLoop → JobEntry → EventLoop
run_job l e = invoke l e.job (job e.job (Ready.as_usize e.ready))

run_jobs : List JobEntry → EventLoop → EventLoop
unfolding run_job
run_jobs [] l = l
run_jobs (e ∷ es) l = run_jobs es (run_job l e)

-- The calls for the entries, the latest first, before those in `before`.
unfoldable pub calls_of : List JobEntry → List Call → List Call
calls_of [] before = before
calls_of (e ∷ es) before = calls_of es (job e.job (Ready.as_usize e.ready) ∷ before)

-- The timer after the closures of the entries have set and cancelled what they do.
unfoldable pub adjusted : (Job → Timer Job → Timer Job) → List JobEntry → Timer Job → Timer Job
adjusted adjusts [] t = t
adjusted adjusts (e ∷ es) t = adjusted adjusts es (adjusts e.job t)

abbrev pub IsIo : JobEntry → Type 0
IsIo e = ttype_eq e.token_entry.ttype TokenType.timers_event ≡ false

get_elem?-append :
    (pre es : List JobEntry) (e : JobEntry) → get_elem? (pre ++ (e ∷ es)) (length pre) ≡ some e
get_elem?-append [] es e = refl
get_elem?-append (x ∷ pre) es e = get_elem?-append pre es e

-- From index `i` on, with the entries before it in `pre`.
process_from-run_jobs :
    (fuel : ℕ) (pre es entries : List JobEntry) (i : ℕ) (l : EventLoop)
    → entries ≡ pre ++ es
    → i ≡ length pre
    → All IsIo es
    → process_from fuel entries i (length es) l ≡ ok (run_jobs es l)
unfolding process_from run_jobs
process_from-run_jobs fuel pre [] entries i l p q h = refl
process_from-run_jobs fuel pre (e ∷ es) entries i l p q (io, rest) =
    let found : get_elem? entries i ≡ some e = rw (p, q) (get_elem?-append pre es e) in
    rw (found, io)
      (process_from-run_jobs fuel (pre ++ (e ∷ [])) es entries (i + 1) (run_job l e)
        (p ∙ sym (append_assoc pre (e ∷ []) es)) (omega (arith, length-append pre (e ∷ []))) rest)

run_jobs-calls :
    (es : List JobEntry) (l : EventLoop)
    → ((run_jobs es l).calls ≡ calls_of es l.calls)
      × ((run_jobs es l).timer ≡ adjusted l.adjusts es l.timer)
unfolding run_jobs calls_of adjusted invoke
run_jobs-calls [] l = (refl, refl)
run_jobs-calls (e ∷ es) l = ground (arith, run_jobs-calls es (run_job l e))

-- Where none of the entries is for the timer, `io_process` over all of them runs the job of each entry
-- once, in order and with the entry's readiness, and nothing else; the timer is what these closures make
-- of it, in that order, and no timeout fires; it does so for any fuel.
pub io_process-calls_of :
    (fuel : ℕ) (entries : List JobEntry) (l : EventLoop)
    → All IsIo entries
    → (l' : EventLoop) × (io_process fuel entries (length entries) l ≡ ok l')
      × (l'.calls ≡ calls_of entries l.calls)
      × (l'.timer ≡ adjusted l.adjusts entries l.timer)
unfolding io_process
io_process-calls_of fuel entries l h =
    let done = run_jobs-calls entries l in
    (
      run_jobs entries l,
      process_from-run_jobs fuel [] entries entries 0 l refl refl h,
      done.0,
      done.1,
    )

-- A poll that was interrupted runs no job, and the loop goes on; any other error ends the loop at once
-- and is what it returns.
pub run_loop-failure :
    (fuel : ℕ) (e : ErrorKind) (polled : Polled) (ps : List Polled) (l : EventLoop)
    → l.run ≡ true
    → polled.result ≡ failure e
    → run_loop fuel (polled ∷ ps) l
      ≡ (if is_interrupted e then run_loop fuel ps l else ok (failure e, l))
unfolding run_loop run_once io_process process_from
run_loop-failure fuel e polled ps l h p = ground arith
