-- ===== src/Tests/Chunks.antt =====
-- A byte source that gives the pieces it was made of, one read after the other.
use hyperdriver.Base.{
  ℕ, ◌≤◌, ◌≡◌, refl, sym, ap, ◌∙◌, List, [], ◌∷◌, ◌++◌, length, take, drop, take-append-drop,
  length-take, append_assoc, arith, ok, err, ready, pending,
}
use hyperdriver.Io.{Reader, ReadResult, IoError, other, from_kind}

pub data Chunk : Type 0 where
  piece : List ℕ → Chunk
  block fault : Chunk

left : List ℕ → List Chunk → List Chunk
left [] cs = cs
left (b ∷ bs) cs = piece (b ∷ bs) ∷ cs

unfoldable pub content : List Chunk → List ℕ
content [] = []
content (piece bs ∷ cs) = bs ++ content cs
content (block ∷ cs) = content cs
content (fault ∷ cs) = content cs

unfoldable pub poll_read : List Chunk → ℕ → ReadResult × List Chunk
unfolding left
poll_read [] n = (ready (ok []), [])
poll_read (piece bs ∷ cs) n = (ready (ok (take n bs)), left (drop n bs) cs)
poll_read (block ∷ cs) n = (pending, cs)
poll_read (fault ∷ cs) n = (ready (err (from_kind other)), cs)

content-left : (bs : List ℕ) (cs : List Chunk) → content (left bs cs) ≡ bs ++ content cs
unfolding content left
content-left [] cs = refl
content-left (b ∷ bs) cs = refl

pub poll_read-fits :
    (s : List Chunk) (n : ℕ) (bs : List ℕ) → (poll_read s n).0 ≡ ready (ok bs) → length bs ≤ n
unfolding poll_read
poll_read-fits [] n bs e = ground arith
poll_read-fits (piece cs ∷ s) n bs e = ground (arith, length-take n cs)
poll_read-fits (block ∷ s) n bs e = cc
poll_read-fits (fault ∷ s) n bs e = cc

pub poll_read-given :
    (s : List Chunk) (n : ℕ) (bs : List ℕ)
    → (poll_read s n).0 ≡ ready (ok bs)
    → content s ≡ bs ++ content (poll_read s n).1
unfolding poll_read content
poll_read-given [] n bs e = let same : [] ≡ bs = ground arith in rw (← same) refl
poll_read-given (piece cs ∷ s) n bs e =
    let same : take n cs ≡ bs = ground arith in
    rw (← same) (
      ap (λ x. x ++ content s) (sym (take-append-drop n cs))
      ∙ append_assoc (take n cs) (drop n cs) (content s)
      ∙ ap (◌++◌ (take n cs)) (sym (content-left (drop n cs) s)))
poll_read-given (block ∷ s) n bs e = cc
poll_read-given (fault ∷ s) n bs e = cc

pub poll_read-pending :
    (s : List Chunk) (n : ℕ) → (poll_read s n).0 ≡ pending → content (poll_read s n).1 ≡ content s
unfolding poll_read content
poll_read-pending [] n e = cc
poll_read-pending (piece cs ∷ s) n e = cc
poll_read-pending (block ∷ s) n e = refl
poll_read-pending (fault ∷ s) n e = cc

pub poll_read-fails :
    (s : List Chunk) (n : ℕ) (x : IoError)
    → (poll_read s n).0 ≡ ready (err x)
    → content (poll_read s n).1 ≡ content s
unfolding poll_read content
poll_read-fails [] n x e = ground arith
poll_read-fails (piece cs ∷ s) n x e = ground arith
poll_read-fails (block ∷ s) n x e = cc
poll_read-fails (fault ∷ s) n x e = refl

abbrev pub chunks : Reader
chunks = record {
  State = List Chunk;
  poll_read = poll_read;
  content = content;
  read_fits = poll_read-fits;
  read_content = poll_read-given;
  pending_content = poll_read-pending;
  error_content = poll_read-fails;
}
