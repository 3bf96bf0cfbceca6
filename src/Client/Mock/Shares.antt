-- ===== src/Client/Mock/Shares.antt =====
-- Which senders share their fate, and for how long identifiers are different.
use hyperdriver.Base.{
  ℕ, zero, suc, ◌+◌, ◌%◌, ◌<◌, ◌≡◌, ◌≢◌, ◌↔◌, Bool, true, false, some, unwrap_or, arith, ◌⊎◌, inl,
  inr, refl, sym, ap, ◌∙◌,
}
use hyperdriver.Client.Mock.{
  Store, MockStream, MockSender, MockProtocol, new_id, new_flag, new_stream, close_stream,
  stream_is_open, new_sender, close, is_open, reuse, connect,
}

-- The identifier that the `n`th call of `StreamID::new` from now on gives.
pub id_after : ℕ → Store → ℕ
unfolding new_id
id_after zero w = (new_id w).0
id_after (suc n) w = id_after n (new_id w).1

id_after_lem : (n : ℕ) (w : Store) → w.ident < 65536 → id_after n w ≡ (w.ident + n) % 65536
unfolding id_after new_id
id_after_lem zero w h = omega arith
id_after_lem (suc n) w h =
    omega (arith, id_after_lem n (record w { ident = (w.ident + 1) % 65536 }) (omega arith))

-- Two identifiers are the same exactly if the numbers of their calls agree modulo 65536: any 65536
-- identifiers in a row are all different, and the next one repeats the first.
id_after-eq_iff :
    (i j : ℕ) (w : Store)
    → w.ident < 65536
    → (id_after i w ≡ id_after j w) ↔ (i % 65536 ≡ j % 65536)
id_after-eq_iff i j w h = (
  λ e. omega (arith, id_after_lem i w h, id_after_lem j w h),
  λ e. omega (arith, id_after_lem i w h, id_after_lem j w h),
)

-- What tests do with senders: make them, connect streams, and close those that `Closes` allows.
pub data Run (Closes : MockSender → Type 0) (first : Store) : Store → Type 0 where
  start : Run Closes first first
  made : {w : Store} (r : Bool) → Run Closes first w → Run Closes first (new_sender r w).1
  connected :
      {w : Store} (p : MockProtocol) (s : MockStream)
      → Run Closes first w
      → Run Closes first (connect p s w).1
  closed :
      {w : Store} (t : MockSender) → Closes t → Run Closes first w → Run Closes first (close t w)

-- The places of flags in use lie below `next`.
flag_kept :
    {Closes : MockSender → Type 0} {first w : Store} (c : ℕ) (b : Bool)
    → ((t : MockSender) → Closes t → (b ≡ false) ⊎ (t.stream.open_flag ≢ c))
    → c < first.next
    → first.flags c ≡ b
    → Run Closes first w
    → (c < w.next) × (w.flags c ≡ b)
unfolding new_sender new_stream new_flag new_id connect close close_stream
flag_kept c b spares lt e start = (lt, e)
flag_kept c b spares lt e (made r before) =
    let (below, same) = flag_kept c b spares lt e before in (omega arith, ground arith)
flag_kept c b spares lt e (connected p s before) = flag_kept c b spares lt e before
flag_kept c b spares lt e (closed t allowed before) =
    let (below, same) = flag_kept c b spares lt e before in
    (below, elim (spares t allowed) [ inl off ↦ ground arith | inr other ↦ ground arith ])

-- A new sender is open, and stays so until a sender of the same stream is closed: whatever senders are
-- made and whatever other streams are closed.
pub new_sender-is_open :
    (r : Bool) (w w' : Store)
    → Run (λ t. t.stream.open_flag ≢ (new_sender r w).0.stream.open_flag) (new_sender r w).1 w'
    → is_open (new_sender r w).0 w' ≡ true
unfolding new_sender new_stream new_flag new_id is_open stream_is_open
new_sender-is_open r w w' run =
    (flag_kept w.next true (λ t n. inr n) (omega arith) (ground arith) run).1

-- A sender that was closed is closed for ever, and so is every sender of its stream, the reused ones
-- among them: nothing opens it again.
close-is_open :
    (s t : MockSender) (w w' : Store)
    → s.stream.open_flag < w.next
    → t.stream.open_flag ≡ s.stream.open_flag
    → Run (λ u. Unit {0}) (close s w) w'
    → (is_open t w' ≡ false) × ((u : MockSender) → reuse t ≡ some u → is_open u w' ≡ false)
unfolding close close_stream is_open stream_is_open reuse
close-is_open s t w w' lt same run =
    let off : w'.flags s.stream.open_flag ≡ false =
      (flag_kept s.stream.open_flag false (λ u n. inl refl) lt (ground arith) run).1 in
    let shut : w'.flags t.stream.open_flag ≡ false = rw same off in
    (shut, λ u e. sym (ap (λ o. w'.flags (unwrap_or t o).stream.open_flag) e) ∙ shut)
