-- ===== src/Client/Handle.antt =====
-- src/client/mod.rs, `Client`: handles on a service that clones share until one of them changes it
-- (`Arc::make_mut`). The store has a cell for each `ClientRef`; a client is a place among the handles,
-- and a cell's count of owners is the number of handles that hold it.
pub mod Cells
pub mod Apart
use hyperdriver.Base.{
  ℕ, zero, suc, ◌+◌, ◌==◌, Bool, if◌then◌else◌, List, [], ◌∷◌, ◌++◌, get_elem?, set, Option, none,
  some, map_some, Result, Poll,
}

pub record Clients (S : Type 0) : Type 0 where
  pub handles : List ℕ
  pub cells : ℕ → S
  pub next : ℕ

-- `Arc::strong_count` of a cell.
pub count : ℕ → List ℕ → ℕ
count c [] = 0
count c (d ∷ handles) = if d == c then suc (count c handles) else count c handles

-- One more owner of a cell.
pub owned : List ℕ → Option ℕ → List ℕ
owned handles none = handles
owned handles (some c) = handles ++ c ∷ []

module _ {S : Type 0} where
  in_place : {A : Type 0} → ℕ → A × S → Clients S → A × Clients S
  in_place c (a, s) w = (a, record w { cells = λ d. if d == c then s else w.cells d })

  on_copy : {A : Type 0} → ℕ → A × S → Clients S → A × Clients S
  on_copy i (a, s) w = (
    a,
    record {
      handles = set w.handles i w.next;
      cells = λ d. if d == w.next then s else w.cells d;
      next = w.next + 1;
    },
  )

  -- The service that a client holds.
  unfoldable pub service_of : Clients S → ℕ → Option S
  service_of w i = map_some w.cells (get_elem? w.handles i)

  -- `Client::new_from_service`.
  unfoldable pub new_from_service : S → Clients S → Clients S
  new_from_service s w = record {
    handles = w.handles ++ w.next ∷ [];
    cells = λ d. if d == w.next then s else w.cells d;
    next = w.next + 1;
  }

  -- `Client::clone`: another owner of the same cell.
  unfoldable pub clone_client : ℕ → Clients S → Clients S
  unfolding owned
  clone_client i w = record w { handles = owned w.handles (get_elem? w.handles i) }

  module _ (clone : S → S) where
    -- `Arc::make_mut`: the only owner works on its cell, another one on a copy of it.
    on_cell : {A : Type 0} → (S → A × S) → ℕ → ℕ → Clients S → A × Clients S
    unfolding count in_place on_copy
    on_cell f i c w =
        if count c w.handles == 1
        then in_place c (f (w.cells c)) w
        else on_copy i (f (clone (w.cells c))) w

    on_client : {A : Type 0} → (S → A × S) → ℕ → Clients S → Option (A × Clients S)
    unfolding on_cell
    on_client f i w = map_some (λ c. on_cell f i c w) (get_elem? w.handles i)

    -- `Client::request`, `call` and `get`: the service goes into the future, its clone stays.
    pub request : {Req F : Type 0} → (S → Req → F) → Req → ℕ → Clients S → Option (F × Clients S)
    unfolding on_client
    request oneshot req i w = on_client (λ s. (oneshot s req, clone s)) i w

    -- `Client::poll_ready`.
    pub poll_ready :
        {E : Type 0}
        → (S → Poll (Result (Unit {0}) E) × S)
        → ℕ
        → Clients S
        → Option (Poll (Result (Unit {0}) E) × Clients S)
    unfolding on_client
    poll_ready poll i w = on_client poll i w

    -- `Client::into_inner`: the only owner gives the service up, another one a clone of it.
    pub into_inner : ℕ → Clients S → Option S
    unfolding count
    into_inner i w =
        map_some (λ c. if count c w.handles == 1 then w.cells c else clone (w.cells c))
          (get_elem? w.handles i)
