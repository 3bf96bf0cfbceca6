-- ===== src/Server/ReadVersion/Detect/First.antt =====
-- What the first answered read of a connection has taken from it.
use hyperdriver.Base.{ℕ, zero, suc, ◌≡◌, sym, ◌∙◌, List, ◌++◌, Poll-cases, inl, inr, ok, ready}
use hyperdriver.Io.{Reader}
use hyperdriver.Server.ReadVersion.{prefix_len}
use hyperdriver.Server.ReadVersion.Detect.{first_read, read_again-pending, read_again-ready}

module _ (r : Reader) where
  pub first_read-content :
      (n : ℕ) (s : r.State) (bs : List ℕ)
      → (first_read r.poll_read n s).0 ≡ ready (ok bs)
      → (rest : List ℕ) × (r.content s ≡ bs ++ rest)
  unfolding first_read
  first_read-content zero s bs e =
      (r.content (r.poll_read s prefix_len).1, r.read_content s prefix_len bs e)
  first_read-content (suc n) s bs e = elim (Poll-cases (r.poll_read s prefix_len).0) [
    | inl waits ↦
        let (rest, c) = first_read-content n (r.poll_read s prefix_len).1 bs (
          rw
            (read_again-pending r.poll_read (first_read r.poll_read n) (r.poll_read s prefix_len)
              waits)
            at e) in
        (rest, sym (r.pending_content s prefix_len waits) ∙ c)
    | inr (x, answer) ↦ (
      r.content (r.poll_read s prefix_len).1,
      r.read_content s prefix_len bs (
          rw
            (read_again-ready r.poll_read (first_read r.poll_read n) (r.poll_read s prefix_len)
              (λ h. cc))
            at e),
    )
  ]
