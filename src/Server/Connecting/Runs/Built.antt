-- ===== src/Server/Connecting/Runs/Built.antt =====
-- What a server has of a connection from its build on.
use hyperdriver.Base.{
  ℕ, suc, ◌≤◌, ◌≡◌, ap, ◌∙◌, List, [], ◌∷◌, ok, err, ready, pending, value, panic,
}
use hyperdriver.Io.{Reader}
use hyperdriver.Rewind.Content.{rewound}
use hyperdriver.Server.ReadVersion.{ReadVersion, PollResult, new, drive}
use hyperdriver.Server.ReadVersion.Content.{Polled, drive-Polled, new-IsOpen}
use hyperdriver.Server.Upgrade.{Hyper, protocol, ConnectionState, serve_connection}
use hyperdriver.Server.Connecting.{
  TowerHyperService, IncomingRequestService, upgradable, build, connecting,
}
use hyperdriver.Server.Connecting.Runs.{
  Event, poll_it, run, held, Simulates-run, connecting-Simulates,
}
use hyperdriver.Server.Connecting.Runs.Late.{
  polls, waited, map_id, Runs, single_run, detecting, LateRun, drive-LateRun,
}

module _ (r : Reader) {S : Type 0} (B : Type 0)
    (h : Hyper r.State (TowerHyperService (IncomingRequestService S))) where
  module _ {Protocol : Type 0} (p : Protocol) where
    held-run :
        (st : ConnectionState r B h) (events : List Event) (q : Runs r B h)
        → run (upgradable r B h) st events ≡ q
        → run (connecting r B h) (held r B h p st) events ≡ (q.0, held r B h p q.1)
    held-run st events q e =
        Simulates-run (upgradable r B h) (connecting r B h) (λ a. a) (held r B h p)
          (connecting-Simulates r B h p) st events
        ∙ ap (λ answers. (answers, held r B h p (run (upgradable r B h) st events).1)) (map_id _)
        ∙ ap (λ (q : Runs r B h). (q.0, held r B h p q.1)) e

    -- A run of a connection that the server has just built, by what comes of the detection on it.
    abbrev pub Built : ℕ → r.State → S → PollResult r.State × ReadVersion r.State → Type 0
    Built n io s (value pending, rv') =
        run (connecting r B h) (build r B h p s io) (polls (suc n) [])
        ≡ (waited (suc n) [], held r B h p (detecting r B h rv' s))
    Built n io s (value (ready (err e)), rv') =
        (k : ℕ) × (k ≤ n)
        × (run (connecting r B h) (build r B h p s io) (polls k (poll_it ∷ [])) ≡ (
          waited k (value (ready (err (protocol e))) ∷ []),
          held r B h p (detecting r B h rv' s),
        ))
    Built n io s (value (ready (ok (v, w))), rv') =
        (rewound r w ≡ r.content io)
        × (k : ℕ) × (k ≤ n)
        × ((events : List Event)
            → let (answers, st) = single_run r B h v w s (poll_it ∷ events) in
              run (connecting r B h) (build r B h p s io) (polls k (poll_it ∷ events))
              ≡ (waited k answers, held r B h p st))
    Built n io s (panic, rv') = ⊥

    both :
        (n : ℕ) (io : r.State) (s : S) (x : PollResult r.State × ReadVersion r.State)
        → LateRun r B h n (new io) s x
        → Polled r (r.content io) x
        → Built n io s x
    unfolding build serve_connection
    both n io s (value pending, rv') run_on kept = held-run _ (polls (suc n) []) _ run_on
    both n io s (value (ready (err e)), rv') (k, le, run_on) kept =
        (k, le, held-run _ (polls k (poll_it ∷ [])) _ run_on)
    both n io s (value (ready (ok (v, w))), rv') (k, le, run_on) kept =
        (kept, k, le, λ events. held-run _ (polls k (poll_it ∷ events)) _ (run_on events))
    both n io s (panic, rv') run_on kept = kept

    -- A connection of the server is, from its first poll, hyper's connection of a server for one
    -- protocol alone that starts late. If the detection decides within `n + 1` polls, then after `k`
    -- pending polls the connection does in every further sequence of polls and graceful shutdowns what
    -- the connection for that protocol does, which is handed a reader of all that the client sent and
    -- is polled in the same poll in which the detection decides. If the detection fails, the connection
    -- ends with its error at that poll; and while it has not decided, every poll is pending. It never
    -- panics on the way.
    pub build-run : (n : ℕ) (io : r.State) (s : S) → Built n io s (drive r.poll_read n (new io))
    unfolding new
    build-run n io s =
        both n io s _ (drive-LateRun r B h n (new io) s)
          (drive-Polled r n (new io) (new-IsOpen r io))
