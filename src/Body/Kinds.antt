-- ===== src/Body/Kinds.antt =====
-- `Body` keeps the laws of the bodies that it is made of.
use hyperdriver.Base.{
  ℕ, zero, suc, ◌≡◌, refl, ap, ◌∙◌, true, List, [], ◌∷◌, ◌++◌, Option, none, some, Result, ok, err,
  Poll, ready, pending, map_ready, append-nil,
}
use hyperdriver.Body.{
  Frame, data_frame, trailers, HttpBody, map_frame, Body, empty, full_body, incoming_body,
  from_string, poll_frame, is_end_stream,
}

module _ (full incoming : HttpBody) (BoxError : Type 0) (box_full : full.Error → BoxError)
    (box_incoming : incoming.Error → BoxError) where
  abbrev Any : Type 0
  Any = Body full incoming BoxError box_full box_incoming

  mapped :
      {E : Type 0} (f : E → BoxError) (p : Poll (Option (Result Frame E)))
      → p ≡ ready none
      → map_ready (map_frame f) p ≡ ready none
  mapped f p e = ap (map_ready (map_frame f)) e

  -- A body at its end gives no frame, whatever kind it is.
  poll_frame-at_end :
      (b : Any)
      → is_end_stream full incoming BoxError box_full box_incoming b ≡ true
      → (poll_frame full incoming BoxError box_full box_incoming b).0 ≡ ready none
  unfolding poll_frame is_end_stream
  poll_frame-at_end empty e = refl
  poll_frame-at_end (full_body s) e = mapped box_full _ (full.at_end s e)
  poll_frame-at_end (incoming_body s) e = mapped box_incoming _ (incoming.at_end s e)

  -- The bytes that a body gives in `n` polls, if it is read to its end in them.
  on_frame : (Any → Option (List ℕ)) → Poll (Option (Result Frame BoxError)) × Any → Option (List ℕ)
  on_frame more (pending, b) = more b
  on_frame more (ready none, b) = some []
  on_frame more (ready (some (ok (data_frame bs))), b) =
      let rest = more b in elim rest [ none ↦ none | some cs ↦ some (bs ++ cs) ]
  on_frame more (ready (some (ok trailers)), b) = more b
  on_frame more (ready (some (err e)), b) = none

  collect : ℕ → Any → Option (List ℕ)
  unfolding on_frame
  collect zero b = none
  collect (suc n) b =
      on_frame (collect n) (poll_frame full incoming BoxError box_full box_incoming b)

  -- `Full::new`: some bytes are given in one frame, after which the body is at its end, and a body
  -- of no bytes is there from the start.
  record GivesBytes (new_full : List ℕ → full.State) : Type 0 where
    none_given : full.is_end_stream (new_full []) ≡ true
    all_given :
        (b : ℕ) (bs : List ℕ)
        → (s : full.State) × (full.poll_frame (new_full (b ∷ bs))
            ≡ (ready (some (ok (data_frame (b ∷ bs)))), s))
          × (full.is_end_stream s ≡ true)

  no_frame :
      (more : Any → Option (List ℕ)) (p : Poll (Option (Result Frame BoxError)) × Any)
      → p.0 ≡ ready none
      → on_frame more p ≡ some []
  unfolding on_frame
  no_frame more (ready none, b) e = refl
  no_frame more (ready (some r), b) e = cc
  no_frame more (pending, b) e = cc

  last_poll :
      (n : ℕ) (s : full.State)
      → full.is_end_stream s ≡ true
      → collect (suc n) (full_body s) ≡ some []
  unfolding collect on_frame poll_frame is_end_stream
  last_poll n s e = no_frame (collect n) _ (poll_frame-at_end (full_body s) e)

  -- A body that is made of a text gives the bytes of the text in two polls, also where the text is
  -- empty and the body has no frame at all.
  collect-from_string :
      (new_full : List ℕ → full.State)
      → GivesBytes new_full
      → (bs : List ℕ)
      → collect 2 (from_string full incoming BoxError box_full box_incoming new_full bs) ≡ some bs
  unfolding from_string collect on_frame poll_frame
  collect-from_string new_full g [] = refl
  collect-from_string new_full g (b ∷ bs) =
      let (s, given, over) = g.all_given b bs in
      ap (λ p. on_frame (collect 1) (map_ready (map_frame box_full) p.0, full_body p.1)) given
      ∙ ap (λ o. elim o [ none ↦ none | some cs ↦ some ((b ∷ bs) ++ cs) ]) (last_poll 0 s over)
      ∙ ap some (append-nil (b ∷ bs))
