-- ===== src/Rewind.antt =====
-- src/rewind.rs: a reader that first gives back the bytes which were read to recognise the protocol.
pub mod Content
use hyperdriver.Base.{ℕ, List, [], ◌∷◌, Option, none, some, length, take, drop, min, ok, ready}
use hyperdriver.Io.{ReadResult}

pub record Rewind (R : Type 0) : Type 0 where
  pub inner : R
  pub prefix : Option (List ℕ)

-- `Rewind::new`.
unfoldable pub new : {R : Type 0} → R → List ℕ → Rewind R
new inner prefix = record { inner = inner; prefix = some prefix }

-- `Some(prefix)` if bytes are left, as `if !prefix.is_empty()` keeps it.
keep : List ℕ → Option (List ℕ)
keep [] = none
keep (b ∷ bs) = some (b ∷ bs)

module _ {R : Type 0} (poll_inner : R → ℕ → ReadResult × R) where
  read_inner : R → ℕ → ReadResult × Rewind R
  read_inner inner n =
      let (result, inner') = poll_inner inner n in
      (result, record { inner = inner'; prefix = none })

  -- The prefix that was taken out of the field; `n` is `remaining(&mut buf)`.
  pub read_prefix : Option (List ℕ) → R → ℕ → ReadResult × Rewind R
  read_prefix none inner n = read_inner inner n
  read_prefix (some []) inner n = read_inner inner n
  read_prefix (some (b ∷ bs)) inner n =
      let count = min (length (b ∷ bs)) n in
      (
        ready (ok (take count (b ∷ bs))),
        record { inner = inner; prefix = keep (drop count (b ∷ bs)) },
      )

  -- `Read::poll_read`.
  unfoldable pub poll_read : Rewind R → ℕ → ReadResult × Rewind R
  unfolding read_prefix read_inner keep
  poll_read w n = read_prefix w.prefix w.inner n

-- `Write`: each of its methods is a call of the same method of `inner`.
pub write {ℓ} : {R : Type 0} {A : Type ℓ} → (R → A × R) → Rewind R → A × Rewind R
write call w = let (result, inner') = call w.inner in (result, record w { inner = inner' })
