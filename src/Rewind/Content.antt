-- ===== src/Rewind/Content.antt =====
-- A rewound reader is a reader: its content is the prefix, then the content of the inner one.
use hyperdriver.Base.{
  ℕ, ◌≤◌, ◌≡◌, refl, sym, ap, ◌∙◌, List, [], ◌∷◌, ◌++◌, Option, none, some, length, take, drop, min,
  take-append-drop, length-take, append_assoc, arith, ok, err, ready, pending,
}
use hyperdriver.Io.{Reader, IoError}
use hyperdriver.Rewind.{Rewind, keep, read_inner, read_prefix, poll_read, new}

abbrev pub bytes : Option (List ℕ) → List ℕ
bytes none = []
bytes (some bs) = bs

bytes-keep : (bs : List ℕ) → bytes (keep bs) ≡ bs
unfolding keep
bytes-keep [] = refl
bytes-keep (b ∷ bs) = refl

split_prefix : (k : ℕ) (p rest : List ℕ) → p ++ rest ≡ take k p ++ (bytes (keep (drop k p)) ++ rest)
split_prefix k p rest =
    rw bytes-keep (ap (λ q. q ++ rest) (sym (take-append-drop k p)) ∙ append_assoc _ _ rest)

module _ (r : Reader) where
  open r use {State, content, read_fits, read_content, pending_content, error_content}

  pub rewound : Rewind State → List ℕ
  rewound w = bytes w.prefix ++ content w.inner

  pub rewound-new : (s : State) (bs : List ℕ) → rewound (new s bs) ≡ bs ++ content s
  unfolding rewound new
  rewound-new s bs = refl

  pub prefix_fits :
      (p : Option (List ℕ)) (s : State) (n : ℕ) (bs : List ℕ)
      → (read_prefix r.poll_read p s n).0 ≡ ready (ok bs)
      → length bs ≤ n
  unfolding read_prefix read_inner
  prefix_fits none s n bs e = read_fits s n bs e
  prefix_fits (some []) s n bs e = read_fits s n bs e
  prefix_fits (some (c ∷ cs)) s n bs e =
      ground (arith, length-take (min (length (c ∷ cs)) n) (c ∷ cs))

  pub prefix_content :
      (p : Option (List ℕ)) (s : State) (n : ℕ) (bs : List ℕ)
      → (read_prefix r.poll_read p s n).0 ≡ ready (ok bs)
      → bytes p ++ content s ≡ bs ++ rewound (read_prefix r.poll_read p s n).1
  unfolding read_prefix read_inner rewound
  prefix_content none s n bs e = read_content s n bs e
  prefix_content (some []) s n bs e = read_content s n bs e
  prefix_content (some (c ∷ cs)) s n bs e =
      let taken : take (min (length (c ∷ cs)) n) (c ∷ cs) ≡ bs = ground arith in
      rw (← taken) (split_prefix (min (length (c ∷ cs)) n) (c ∷ cs) (content s))

  pub prefix_pending :
      (p : Option (List ℕ)) (s : State) (n : ℕ)
      → (read_prefix r.poll_read p s n).0 ≡ pending
      → rewound (read_prefix r.poll_read p s n).1 ≡ bytes p ++ content s
  unfolding read_prefix read_inner rewound
  prefix_pending none s n e = pending_content s n e
  prefix_pending (some []) s n e = pending_content s n e
  prefix_pending (some (c ∷ cs)) s n e = cc

  pub prefix_error :
      (p : Option (List ℕ)) (s : State) (n : ℕ) (x : IoError)
      → (read_prefix r.poll_read p s n).0 ≡ ready (err x)
      → rewound (read_prefix r.poll_read p s n).1 ≡ bytes p ++ content s
  unfolding read_prefix read_inner rewound
  prefix_error none s n x e = error_content s n x e
  prefix_error (some []) s n x e = error_content s n x e
  prefix_error (some (c ∷ cs)) s n x e = ground arith

  -- Rewinding a reader gives a reader: `poll_read` on the rewound value keeps all laws of a byte
  -- source whose content is the prefix followed by the content of the inner reader.
  unfoldable pub rewind_reader : Reader
  unfolding poll_read rewound
  rewind_reader = record {
    State = Rewind State;
    poll_read = poll_read r.poll_read;
    content = rewound;
    read_fits = λ w n bs e. prefix_fits w.prefix w.inner n bs e;
    read_content = λ w n bs e. prefix_content w.prefix w.inner n bs e;
    pending_content = λ w n e. prefix_pending w.prefix w.inner n e;
    error_content = λ w n x e. prefix_error w.prefix w.inner n x e;
  }

  -- A read of a rewound reader fits its buffer and gives the next bytes of the prefix followed by
  -- the inner content, in order and with none lost.
  poll_read-content :
      (w : Rewind State) (n : ℕ) (bs : List ℕ)
      → (poll_read r.poll_read w n).0 ≡ ready (ok bs)
      → (length bs ≤ n) × (rewound w ≡ bs ++ rewound (poll_read r.poll_read w n).1)
  unfolding poll_read rewound
  poll_read-content w n bs e =
      (prefix_fits w.prefix w.inner n bs e, prefix_content w.prefix w.inner n bs e)
