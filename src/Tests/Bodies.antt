-- ===== src/Tests/Bodies.antt =====
-- Timers.
use hyperdriver.Base.{err, ◌==◌, if◌then◌else◌, ℕ, zero, suc, Result, ok, Poll, ready, pending}
use hyperdriver.Service.Timeout.{drive}
use hyperdriver.Service.Timeout.Elapses.{Ran, drive-Ran}

-- Futures that are ready after so many polls.
abbrev inner_poll : ℕ → Poll (Result ℕ ℕ) × ℕ
inner_poll zero = (ready (ok 200), 0)
inner_poll (suc n) = (pending, n)

abbrev pub timer_poll : ℕ → Poll (Unit {0}) × ℕ
timer_poll zero = (ready tt, 0)
timer_poll (suc n) = (pending, n)

drive-Ran_example :
    Ran inner_poll timer_poll 5 1
      (λ u. 408)
      (drive inner_poll timer_poll 3 (record { inner = 5; error = λ u. 408; timeout = 1 }))
drive-Ran_example = drive-Ran inner_poll timer_poll 3 5 1 (λ u. 408)

-- A service that refuses odd requests.
abbrev refuses : ℕ → Result ℕ ℕ
refuses n = if n == 1 then err 400 else ok n

abbrev counts : ℕ → ℕ → ℕ × ℕ
counts s n = (n, s)
