-- ===== src/Server/ReadVersion/Rounds.antt =====
-- What one poll of a new `ReadVersion` recognises, by the first read.
use hyperdriver.Base.{
  Bool-cases, inl, inr, if◌then◌else◌, ℕ, suc, ◌≡◌, refl, ◌↔◌, ◌≢◌, List, [], Option, none, some,
  bytes_eq, bytes_eq_iff, ok, err, ready, pending, value, panic, arith,
}
use hyperdriver.Io.{ReadResult}
use hyperdriver.Server.ReadVersion.{
  ReadVersion, HttpProtocol, http1, http2, http2_prefix, prefix_len, new, Exit, blocked, failed,
  finished, out_of_fuel, is_http1, on_read, read_loop, PollResult, settle, poll,
}

-- The protocol that a poll decided on, if it did.
abbrev pub verdict : {I : Type 0} → PollResult I → Option HttpProtocol
verdict (value (ready (ok (v, w)))) = some v
verdict (value (ready (err e))) = none
verdict (value pending) = none
verdict panic = none

abbrev exit_verdict : {I : Type 0} → Exit I → Option HttpProtocol
exit_verdict (finished v io buf) = some v
exit_verdict (blocked io buf) = none
exit_verdict (failed e io buf) = none
exit_verdict out_of_fuel = none

verdict-settle :
    {I : Type 0} (rv : ReadVersion I) (x : Exit I) → verdict (settle rv x).0 ≡ exit_verdict x
unfolding settle
verdict-settle rv (finished v io buf) = refl
verdict-settle rv (blocked io buf) = refl
verdict-settle rv (failed e io buf) = refl
verdict-settle rv out_of_fuel = refl

module _ {I : Type 0} (poll_read : I → ℕ → ReadResult × I) where
  -- With the whole prefix read there is no second round.
  full_loop :
      (fuel : ℕ) (version : HttpProtocol) (io : I)
      → read_loop poll_read (suc fuel) version io http2_prefix ≡ finished version io http2_prefix
  unfolding read_loop
  full_loop fuel version io = refl

  pub ok_round :
      (fuel : ℕ) (version : HttpProtocol) (bs : List ℕ) (io : I)
      → on_read (read_loop poll_read (suc fuel) version) [] (ready (ok bs), io)
        ≡ (if bytes_eq bs http2_prefix then finished version io bs else finished http1 io bs)
  unfolding on_read is_http1
  ok_round fuel version bs io = elim (Bool-cases (bytes_eq bs http2_prefix)) [
    | inl same ↦
        let e : bs ≡ http2_prefix = (bytes_eq_iff bs http2_prefix).0 same in
        rw e (full_loop fuel version io)
    | inr other ↦ rw other (ground arith)
  ]

  round_http2 :
      (fuel : ℕ) (p : ReadResult × I)
      → (exit_verdict (on_read (read_loop poll_read (suc fuel) http2) [] p) ≡ some http2)
        ↔ (p.0 ≡ ready (ok http2_prefix))
  round_http2 fuel (pending, io) = (unfold on_read in λ e. cc, λ e. cc)
  round_http2 fuel (ready (err e), io) = (unfold on_read in λ h. cc, λ h. cc)
  round_http2 fuel (ready (ok bs), io) =
      rw (ok_round fuel http2 bs io) (ground (arith, bytes_eq_iff bs http2_prefix))

  round_http1 :
      (fuel : ℕ) (p : ReadResult × I)
      → (exit_verdict (on_read (read_loop poll_read (suc fuel) http2) [] p) ≡ some http1)
        ↔ ((bs : List ℕ) × (p.0 ≡ ready (ok bs)) × (bs ≢ http2_prefix))
  round_http1 fuel (pending, io) = (unfold on_read in λ e. cc, λ h. cc (h.1))
  round_http1 fuel (ready (err e), io) = (unfold on_read in λ h. cc, λ h. cc (h.1))
  round_http1 fuel (ready (ok bs), io) = rw (ok_round fuel http2 bs io) (
    λ h. (bs, refl, ground (arith, bytes_eq_iff bs http2_prefix)),
    λ h. let (cs, same, other) = h in ground (arith, bytes_eq_iff bs http2_prefix, other),
  )

  verdict-poll-new :
      (s : I)
      → verdict (poll poll_read (new s)).0
        ≡ exit_verdict (on_read (read_loop poll_read prefix_len http2) [] (poll_read s prefix_len))
  unfolding poll new read_loop
  verdict-poll-new s = verdict-settle (new s) _

  pub poll-new-http2_iff :
      (s : I)
      → (verdict (poll poll_read (new s)).0 ≡ some http2)
        ↔ ((poll_read s prefix_len).0 ≡ ready (ok http2_prefix))
  poll-new-http2_iff s = rw (verdict-poll-new s) (round_http2 23 (poll_read s prefix_len))

  pub poll-new-http1_iff :
      (s : I)
      → (verdict (poll poll_read (new s)).0 ≡ some http1)
        ↔ ((bs : List ℕ) × ((poll_read s prefix_len).0 ≡ ready (ok bs)) × (bs ≢ http2_prefix))
  poll-new-http1_iff s = rw (verdict-poll-new s) (round_http1 23 (poll_read s prefix_len))
