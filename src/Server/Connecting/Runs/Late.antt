-- ===== src/Server/Connecting/Runs/Late.antt =====
-- A connection of the server from its start: the detection of the protocol, and then hyper's
-- connection for it.
use hyperdriver.Base.{
  ℕ, zero, suc, ◌≤◌, ◌≡◌, ◌≢◌, refl, sym, ap, ◌∙◌, List, [], ◌∷◌, map, some, Result, ok, err, Poll,
  ready, pending, value, panic, arith,
}
use hyperdriver.Io.{Reader, IoError}
use hyperdriver.Rewind.{Rewind}
use hyperdriver.Server.ReadVersion
use hyperdriver.Server.ReadVersion.{ReadVersion, PollResult, new, drive, drive_on}
use hyperdriver.Server.Upgrade
use hyperdriver.Server.Upgrade.{
  Hyper, ConnectionError, protocol, ConnectionState, read_version, http1, http2, serve,
  serve_connection,
}
use hyperdriver.Server.Upgrade.Steps.{poll-pending, poll-failed, poll-decided}
use hyperdriver.Server.Connecting.{
  http1_connection, http2_connection, TowerHyperService, IncomingRequestService, adapt, upgradable,
}
use hyperdriver.Server.Connecting.Runs.{
  Event, poll_it, Answer, http1-Simulates, http2-Simulates, run, by_hyper, Simulates-run,
}

-- A task that polls `k` times.
abbrev pub polls : ℕ → List Event → List Event
polls zero events = events
polls (suc k) events = poll_it ∷ polls k events

-- So many polls that were pending, before other answers.
abbrev pub waited : {E : Type 0} → ℕ → List (Answer E) → List (Answer E)
waited zero answers = answers
waited (suc k) answers = value pending ∷ waited k answers

pub map_id : {A : Type 0} (xs : List A) → map (λ x. x) xs ≡ xs
map_id [] = refl
map_id (x ∷ xs) = ap (◌∷◌ x) (map_id xs)

module _ (r : Reader) {S : Type 0} (B : Type 0)
    (h : Hyper r.State (TowerHyperService (IncomingRequestService S))) where
  abbrev pub Runs : Type 0
  Runs = List (Answer (ConnectionError h.Error B)) × ConnectionState r B h

  -- The run of the connection of a server for one protocol alone, on the reader that it is handed.
  abbrev pub single_run : ReadVersion.HttpProtocol → Rewind r.State → S → List Event → Runs
  single_run ReadVersion.http1 w s events =
      let (answers, c) =
        run (http1_connection h.poll_http1 h.shutdown_http1)
          (record { conn = h.serve_http1 w (adapt s) }) events in
      (map by_hyper answers, http1 c.conn)
  single_run ReadVersion.http2 w s events =
      let (answers, c) =
        run (http2_connection h.poll_http2 h.shutdown_http2)
          (record { conn = h.serve_http2 w (adapt s) }) events in
      (map by_hyper answers, http2 c.conn)

  abbrev pub detecting : ReadVersion r.State → S → ConnectionState r B h
  detecting rv s = read_version rv (some (adapt s))

  serve-run :
      (v : ReadVersion.HttpProtocol) (w : Rewind r.State) (s : S) (events : List Event)
      → run (upgradable r B h) (serve r B h v w (adapt s)) events ≡ single_run v w s events
  unfolding serve
  serve-run ReadVersion.http1 w s events =
      Simulates-run _ (upgradable r B h) by_hyper (λ c. http1 c.conn) (http1-Simulates r B h) _
        events
  serve-run ReadVersion.http2 w s events =
      Simulates-run _ (upgradable r B h) by_hyper (λ c. http2 c.conn) (http2-Simulates r B h) _
        events

  -- What a run from a detection is, by what the detection gives when it is polled `n + 1` times.
  abbrev pub LateRun :
      ℕ → ReadVersion r.State → S → PollResult r.State × ReadVersion r.State → Type 0
  LateRun n rv s (value pending, rv') =
      run (upgradable r B h) (detecting rv s) (polls (suc n) [])
      ≡ (waited (suc n) [], detecting rv' s)
  LateRun n rv s (value (ready (err e)), rv') =
      (k : ℕ) × (k ≤ n)
      × (run (upgradable r B h) (detecting rv s) (polls k (poll_it ∷ []))
          ≡ (waited k (value (ready (err (protocol e))) ∷ []), detecting rv' s))
  LateRun n rv s (value (ready (ok (v, w))), rv') =
      (k : ℕ) × (k ≤ n)
      × ((events : List Event)
          → run (upgradable r B h) (detecting rv s) (polls k (poll_it ∷ events)) ≡ (
            waited k (single_run v w s (poll_it ∷ events)).0,
            (single_run v w s (poll_it ∷ events)).1,
          ))
  LateRun n rv s (panic, rv') = Unit

  -- A run of a poll and more events, by the answer of the poll.
  abbrev after : List Event → Answer (ConnectionError h.Error B) × ConnectionState r B h → Runs
  after events (a, st) = let (answers, st') = run (upgradable r B h) st events in (a ∷ answers, st')

  run-poll :
      (st : ConnectionState r B h) (p : Answer (ConnectionError h.Error B) × ConnectionState r B h)
      (events : List Event)
      → Upgrade.poll r B h st ≡ p
      → run (upgradable r B h) st (poll_it ∷ events) ≡ after events p
  unfolding upgradable
  run-poll st p events e = ap (after events) e

  run-decided :
      (rv rv' : ReadVersion r.State) (v : ReadVersion.HttpProtocol) (w : Rewind r.State) (s : S)
      → ReadVersion.poll r.poll_read rv ≡ (value (ready (ok (v, w))), rv')
      → (events : List Event)
      → run (upgradable r B h) (detecting rv s) (poll_it ∷ events)
        ≡ single_run v w s (poll_it ∷ events)
  run-decided rv rv' v w s e events =
      run-poll (detecting rv s) _ events (poll-decided r B h rv rv' v w (adapt s) e)
      ∙ sym (run-poll (serve r B h v w (adapt s)) _ events refl)
      ∙ serve-run v w s (poll_it ∷ events)

  at_once :
      (n : ℕ) (rv : ReadVersion r.State) (s : S)
      (x : Poll (Result (ReadVersion.HttpProtocol × Rewind r.State) IoError))
      (rv' : ReadVersion r.State)
      → x ≢ pending
      → ReadVersion.poll r.poll_read rv ≡ (value x, rv')
      → LateRun n rv s (value x, rv')
  at_once n rv s pending rv' busy e = absurd (busy refl)
  at_once n rv s (ready (err x)) rv' busy e =
      (0, omega arith, run-poll _ _ [] (poll-failed r B h rv rv' (some (adapt s)) x e))
  at_once n rv s (ready (ok (v, w))) rv' busy e = (0, omega arith, run-decided rv rv' v w s e)

  run-pending :
      (rv rv' : ReadVersion r.State) (s : S) (events : List Event) (q : Runs)
      → ReadVersion.poll r.poll_read rv ≡ (value pending, rv')
      → run (upgradable r B h) (detecting rv' s) events ≡ q
      → run (upgradable r B h) (detecting rv s) (poll_it ∷ events) ≡ (value pending ∷ q.0, q.1)
  run-pending rv rv' s events q e k =
      run-poll (detecting rv s) _ events (poll-pending r B h rv rv' (some (adapt s)) e)
      ∙ ap (λ (q : Runs). (value pending ∷ q.0, q.1)) k

  -- One pending poll more, before a run.
  waits :
      (n : ℕ) (rv rv' : ReadVersion r.State) (s : S)
      → ReadVersion.poll r.poll_read rv ≡ (value pending, rv')
      → (x : PollResult r.State × ReadVersion r.State) → LateRun n rv' s x
      → LateRun (suc n) rv s x
  waits n rv rv' s e (value pending, rv'') run_on =
      run-pending rv rv' s (polls (suc n) []) _ e run_on
  waits n rv rv' s e (value (ready (err x)), rv'') (k, le, run_on) =
      (suc k, omega arith, run-pending rv rv' s (polls k (poll_it ∷ [])) _ e run_on)
  waits n rv rv' s e (value (ready (ok (v, w))), rv'') (k, le, run_on) = (
    suc k,
    omega arith,
    λ events. run-pending rv rv' s (polls k (poll_it ∷ events)) _ e (run_on events),
  )
  waits n rv rv' s e (panic, rv'') run_on = tt

  by_poll :
      (n : ℕ) (rv : ReadVersion r.State) (s : S) (p : PollResult r.State × ReadVersion r.State)
      → ReadVersion.poll r.poll_read rv ≡ p
      → ((rv' : ReadVersion r.State) → LateRun n rv' s (drive r.poll_read n rv'))
      → LateRun (suc n) rv s (drive_on r.poll_read (drive r.poll_read n) p)
  unfolding drive_on
  by_poll n rv s (value pending, rv') e more = waits n rv rv' s e _ (more rv')
  by_poll n rv s (value (ready x), rv') e more = at_once (suc n) rv s (ready x) rv' (λ h. cc) e
  by_poll n rv s (panic, rv') e more = tt

  last :
      (rv : ReadVersion r.State) (s : S) (p : PollResult r.State × ReadVersion r.State)
      → ReadVersion.poll r.poll_read rv ≡ p
      → LateRun 0 rv s p
  last rv s (value pending, rv') e = run-pending rv rv' s [] _ e refl
  last rv s (value (ready x), rv') e = at_once 0 rv s (ready x) rv' (λ h. cc) e
  last rv s (panic, rv') e = tt

  pub drive-LateRun :
      (n : ℕ) (rv : ReadVersion r.State) (s : S) → LateRun n rv s (drive r.poll_read n rv)
  unfolding drive
  drive-LateRun zero rv s = last rv s _ refl
  drive-LateRun (suc n) rv s = by_poll n rv s _ refl (λ rv'. drive-LateRun n rv' s)
