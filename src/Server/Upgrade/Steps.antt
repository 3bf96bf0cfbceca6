-- ===== src/Server/Upgrade/Steps.antt =====
-- A poll of a connection whose protocol is not known, by what the detection answers.
use hyperdriver.Base.{◌≡◌, refl, ap, ◌∙◌, Option, some, ok, err, ready, pending, value}
use hyperdriver.Io.{Reader, IoError}
use hyperdriver.Rewind.{Rewind}
use hyperdriver.Server.ReadVersion
use hyperdriver.Server.ReadVersion.{ReadVersion}
use hyperdriver.Server.Upgrade.{Hyper, read_version, serve, on_version, rounds, poll, protocol}

module _ (r : Reader) {S : Type 0} (B : Type 0) (h : Hyper r.State S) where
  pub serve_round :
      (v : ReadVersion.HttpProtocol) (w : Rewind r.State) (s : S)
      → rounds r B h 1 (serve r B h v w s) ≡ poll r B h (serve r B h v w s)
  unfolding poll serve rounds
  serve_round ReadVersion.http1 w s = refl
  serve_round ReadVersion.http2 w s = refl

module _ (r : Reader) {S : Type 0} (B : Type 0) (h : Hyper r.State S)
    (rv rv' : ReadVersion r.State) where
  pub poll-pending :
      (s : Option S)
      → ReadVersion.poll r.poll_read rv ≡ (value pending, rv')
      → poll r B h (read_version rv s) ≡ (value pending, read_version rv' s)
  unfolding poll rounds on_version
  poll-pending s e = ap (on_version r B h (rounds r B h 1) s) e

  pub poll-failed :
      (s : Option S) (x : IoError)
      → ReadVersion.poll r.poll_read rv ≡ (value (ready (err x)), rv')
      → poll r B h (read_version rv s) ≡ (value (ready (err (protocol x))), read_version rv' s)
  unfolding poll rounds on_version
  poll-failed s x e = ap (on_version r B h (rounds r B h 1) s) e

  pub poll-decided :
      (v : ReadVersion.HttpProtocol) (w : Rewind r.State) (s : S)
      → ReadVersion.poll r.poll_read rv ≡ (value (ready (ok (v, w))), rv')
      → poll r B h (read_version rv (some s)) ≡ poll r B h (serve r B h v w s)
  unfolding poll rounds on_version
  poll-decided v w s e = ap (on_version r B h (rounds r B h 1) (some s)) e ∙ serve_round r B h v w s
