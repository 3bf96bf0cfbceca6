-- ===== src/Body.antt =====
-- src/body/mod.rs: `Body`, one of several kinds of body. The kinds of other crates are the interface
-- `HttpBody` of the http_body crate; `Full` is http_body_util's, over bytes.
pub mod Kinds
use hyperdriver.Base.{
  ℕ, ◌≡◌, Bool, true, false, if◌then◌else◌, List, [], ◌∷◌, length, is_nil, Option, none, some,
  Result, ok, err, Poll, ready, pending, map_err, map_ready,
}

-- `http_body::Frame`.
pub data Frame : Type 0 where
  data_frame : List ℕ → Frame
  trailers : Frame

-- `http_body::SizeHint`: its lower and its upper bound.
pub record SizeHint : Type 0 where
  pub lower : ℕ
  pub upper : Option ℕ

-- `SizeHint::with_exact`.
abbrev pub with_exact : ℕ → SizeHint
with_exact n = record { lower = n; upper = some n }

-- `http_body::Body`, with the laws that its documentation states: a body at its end gives no frame.
pub record HttpBody : Type 1 where
  pub State : Type 0
  pub Error : Type 0
  pub poll_frame : State → Poll (Option (Result Frame Error)) × State
  pub is_end_stream : State → Bool
  pub size_hint : State → SizeHint
  pub at_end : (s : State) → is_end_stream s ≡ true → (poll_frame s).0 ≡ ready none

-- `Option::map` on what a frame is polled to.
abbrev pub map_frame : {E F : Type 0} → (E → F) → Option (Result Frame E) → Option (Result Frame F)
map_frame f none = none
map_frame f (some r) = some (map_err f r)

module _ (full incoming : HttpBody) (BoxError : Type 0) (box_full : full.Error → BoxError)
    (box_incoming : incoming.Error → BoxError) where
  -- `InnerBody`.
  pub data Body : Type 0 where
    empty : Body
    full_body : full.State → Body
    incoming_body : incoming.State → Body

  -- `Body::empty`.
  pub new_empty : Body
  new_empty = empty

  -- `Body::full`; `new_full` is `Full::new`.
  pub from_bytes : (List ℕ → full.State) → List ℕ → Body
  from_bytes new_full bytes = full_body (new_full bytes)

  -- `From<String> for InnerBody`, on the bytes of the text.
  pub from_string : (List ℕ → full.State) → List ℕ → Body
  from_string new_full bytes = if is_nil bytes then empty else full_body (new_full bytes)

  -- `From<Bytes>`, `From<&'static str>` (also of an empty text) and `From<Vec<u8>>` for `Body`, all by
  -- way of `Full`.
  pub of_bytes : (List ℕ → full.State) → List ℕ → Body
  of_bytes new_full bytes = full_body (new_full bytes)

  pub of_str : (List ℕ → full.State) → List ℕ → Body
  of_str new_full text = full_body (new_full text)

  pub of_vec : (List ℕ → full.State) → List ℕ → Body
  of_vec new_full bytes = full_body (new_full bytes)

  -- `From<Full<Bytes>>`, `From<Empty<Bytes>>` and `Default` for `Body`.
  pub of_full : full.State → Body
  of_full body = full_body body

  pub of_empty : Unit {0} → Body
  of_empty body = empty

  pub default_body : Body
  default_body = empty

  -- `From<Incoming> for Body`.
  pub from_incoming : incoming.State → Body
  from_incoming body = incoming_body body

  -- `Body::try_clone`; `clone_full` is `Full::clone`.
  pub try_clone : (full.State → full.State) → Body → Option Body
  try_clone clone_full (full_body body) = some (full_body (clone_full body))
  try_clone clone_full empty = some empty
  try_clone clone_full (incoming_body body) = none

  -- `poll_frame`.
  pub poll_frame : Body → Poll (Option (Result Frame BoxError)) × Body
  poll_frame empty = (ready none, empty)
  poll_frame (full_body body) =
      let (r, body') = full.poll_frame body in (map_ready (map_frame box_full) r, full_body body')
  poll_frame (incoming_body body) =
      let (r, body') = incoming.poll_frame body in
      (map_ready (map_frame box_incoming) r, incoming_body body')

  -- `is_end_stream`.
  unfoldable pub is_end_stream : Body → Bool
  is_end_stream empty = true
  is_end_stream (full_body body) = full.is_end_stream body
  is_end_stream (incoming_body body) = incoming.is_end_stream body

  -- `size_hint`.
  pub size_hint : Body → SizeHint
  size_hint empty = with_exact 0
  size_hint (full_body body) = full.size_hint body
  size_hint (incoming_body body) = incoming.size_hint body
