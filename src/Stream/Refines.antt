-- ===== src/Stream/Refines.antt =====
-- A stream that only passes calls on refines the stream below it: every sequence of reads, writes,
-- flushes and shutdowns has the same answers.
use hyperdriver.Base.{ℕ, ◌≡◌, refl, ap, ◌∙◌, List, [], ◌∷◌, Result, Poll}
use hyperdriver.Io.{ReadResult, IoError}
use hyperdriver.Stream.{AsyncIo, tcp, duplex, unix, dispatch, braid_io}

pub data Op : Type 0 where
  read : ℕ → Op
  write : List ℕ → Op
  flush shutdown : Op

pub data Answer : Type 0 where
  got : ReadResult → Answer
  took : Poll (Result ℕ IoError) → Answer
  done : Poll (Result (Unit {0}) IoError) → Answer

module _ {S : Type 0} (io : AsyncIo S) where
  abbrev pub perform : S → Op → Answer × S
  perform s (read n) = let (r, s') = io.poll_read s n in (got r, s')
  perform s (write bs) = let (r, s') = io.poll_write s bs in (took r, s')
  perform s flush = let (r, s') = io.poll_flush s in (done r, s')
  perform s shutdown = let (r, s') = io.poll_shutdown s in (done r, s')

  -- The answers to a sequence of calls, and the stream after them.
  abbrev pub perform_all : S → List Op → List Answer × S
  perform_all s [] = ([], s)
  perform_all s (op ∷ ops) =
      let (a, s') = perform s op in let (answers, s'') = perform_all s' ops in (a ∷ answers, s'')

-- `view s` answers each call as `s` does, and stays a view.
abbrev pub Refines : {S S' : Type 0} → AsyncIo S → AsyncIo S' → (S → S') → Type 0
Refines {S} io io' view =
    (s : S) (op : Op) → perform io' (view s) op ≡ ((perform io s op).0, view (perform io s op).1)

pub Refines-perform_all :
    {S S' : Type 0} (io : AsyncIo S) (io' : AsyncIo S') (view : S → S')
    → Refines io io' view
    → (s : S) (ops : List Op)
    → perform_all io' (view s) ops ≡ ((perform_all io s ops).0, view (perform_all io s ops).1)
Refines-perform_all io io' view r s [] = refl
Refines-perform_all {S' = S'} io io' view r s (op ∷ ops) =
    let rest = Refines-perform_all io io' view r (perform io s op).1 ops in
    ap (λ (p : Answer × S'). (p.0 ∷ (perform_all io' p.1 ops).0, (perform_all io' p.1 ops).1))
      (r s op)
    ∙ ap (λ (p : List Answer × S'). ((perform io s op).0 ∷ p.0, p.1)) rest

pub Refines-trans :
    {S S' S'' : Type 0} (io : AsyncIo S) (io' : AsyncIo S') (io'' : AsyncIo S'') (f : S → S')
    (g : S' → S'')
    → Refines io io' f
    → Refines io' io'' g
    → Refines io io'' (λ s. g (f s))
Refines-trans {S' = S'} io io' io'' f g r r' s op =
    r' (f s) op ∙ ap (λ (p : Answer × S'). (p.0, g p.1)) (r s op)

module _ {T D U : Type 0} (t : AsyncIo T) (d : AsyncIo D) (u : AsyncIo U) where
  pub tcp-Refines : Refines t (braid_io t d u) tcp
  unfolding braid_io dispatch
  tcp-Refines s (read n) = refl
  tcp-Refines s (write bs) = refl
  tcp-Refines s flush = refl
  tcp-Refines s shutdown = refl

  pub duplex-Refines : Refines d (braid_io t d u) duplex
  unfolding braid_io dispatch
  duplex-Refines s (read n) = refl
  duplex-Refines s (write bs) = refl
  duplex-Refines s flush = refl
  duplex-Refines s shutdown = refl

  pub unix-Refines : Refines u (braid_io t d u) unix
  unfolding braid_io dispatch
  unix-Refines s (read n) = refl
  unix-Refines s (write bs) = refl
  unix-Refines s flush = refl
  unix-Refines s shutdown = refl
