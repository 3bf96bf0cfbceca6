-- ===== src/Client/Handle/Apart.antt =====
-- Clients that share a service do not see what another one does to it.
use hyperdriver.Base.{
  ◌⊎◌, ==_iff, subst, ℕ, ◌+◌, ◌<◌, ◌≡◌, ◌≢◌, refl, sym, ap, ◌∙◌, ◌==◌, Bool-cases, inl, inr, [],
  get_elem?, set, get_elem?-set_ne, get_elem?-set_self, Option-cases, none, some, map_some, Poll,
  Result, arith,
}
use hyperdriver.Client.Handle.{
  Clients, new_from_service, clone_client, count, in_place, on_copy, service_of, on_cell, on_client,
  request, poll_ready,
}
use hyperdriver.Client.Handle.Cells.{
  IsValid, only_owner, some-injective, none-ne-some, unseen, if_self, fresh, new-IsValid,
  clone-IsValid,
}

module _ {S A : Type 0} (clone : S → S) (f : S → A × S) where
  -- What a client's change by `f` does: it works on the client's service or on a clone of it, and no
  -- other client's service is another one after it.
  pub record Apart (i : ℕ) (s : S) (w : Clients S) (p : A × Clients S) : Type 0 where
    pub own :
        (t : S) × ((t ≡ s) ⊎ (t ≡ clone s)) × (p.0 ≡ (f t).0) × (service_of p.1 i ≡ some (f t).1)
    pub others : (j : ℕ) → i ≢ j → service_of p.1 j ≡ service_of w j
    pub valid : IsValid p.1

  in_place-Apart :
      (i c : ℕ) (w : Clients S)
      → IsValid w
      → get_elem? w.handles i ≡ some c
      → count c w.handles ≡ 1
      → Apart i (w.cells c) w (in_place c (f (w.cells c)) w)
  unfolding in_place service_of
  in_place-Apart i c w v e one = record {
    own = (w.cells c, inl refl, refl, rw e (ap some (if_self w.cells c (f (w.cells c)).1)));
    others = λ j n.
        unseen w.cells c (f (w.cells c)).1 (get_elem? w.handles j)
          (λ d held same. n (only_owner w.handles i j c e (held ∙ ap some same) one));
    valid = v;
  }

  on_copy-valid :
      (i c : ℕ) (w : Clients S)
      → IsValid w
      → get_elem? w.handles i ≡ some c
      → (j d : ℕ) → get_elem? (set w.handles i w.next) j ≡ some d
      → d < w.next + 1
  on_copy-valid i c w v e j d held = elim (Bool-cases (i == j)) [
    | inl same ↦
        let there : get_elem? (set w.handles i w.next) j ≡ some w.next =
          subst (λ k. get_elem? (set w.handles i w.next) k ≡ some w.next) ((==_iff i j).0 same)
            (get_elem?-set_self w.handles i w.next c e) in
        ground arith
    | inr other ↦
        let n : i ≢ j = ground arith in
        let below : d < w.next = v j d (sym (get_elem?-set_ne w.handles i j w.next n) ∙ held) in
        omega arith
  ]

  on_copy-Apart :
      (i c : ℕ) (w : Clients S)
      → IsValid w
      → get_elem? w.handles i ≡ some c
      → Apart i (w.cells c) w (on_copy i (f (clone (w.cells c))) w)
  unfolding on_copy service_of
  on_copy-Apart i c w v e =
      let t = clone (w.cells c) in
      record {
        own = (
          t,
          inr refl,
          refl,
          rw (get_elem?-set_self w.handles i w.next c e) (ap some (if_self w.cells w.next (f t).1)),
        );
        others = λ j n. rw (get_elem?-set_ne w.handles i j w.next n) (
            unseen w.cells w.next (f t).1 (get_elem? w.handles j)
              (λ d held same. fresh (v j d held) same));
        valid = on_copy-valid i c w v e;
      }

  on_cell-Apart :
      (i c : ℕ) (w : Clients S)
      → IsValid w
      → get_elem? w.handles i ≡ some c
      → Apart i (w.cells c) w (on_cell clone f i c w)
  unfolding on_cell
  on_cell-Apart i c w v e = elim (Bool-cases (count c w.handles == 1)) [
    | inl one ↦ rw one (in_place-Apart i c w v e ((==_iff (count c w.handles) 1).0 one))
    | inr more ↦ rw more (on_copy-Apart i c w v e)
  ]

  on_client-Apart :
      (i : ℕ) (s : S) (w : Clients S)
      → IsValid w
      → service_of w i ≡ some s
      → (p : A × Clients S) × (on_client clone f i w ≡ some p) × Apart i s w p
  unfolding on_client service_of
  on_client-Apart i s w v e = elim (Option-cases (get_elem? w.handles i)) [
    | inl gone ↦
        let no : map_some w.cells none ≡ some s = ap (map_some w.cells) (sym gone) ∙ e in cc
    | inr (c, held) ↦
        let cell : w.cells c ≡ s = some-injective (ap (map_some w.cells) (sym held) ∙ e) in
        (
          on_cell clone f i c w,
          ap (map_some (λ c. on_cell clone f i c w)) held,
          subst (λ s. Apart i s w (on_cell clone f i c w)) cell (on_cell-Apart i c w v held),
        )
  ]

module _ {S E Req F : Type 0} (clone : S → S) (poll_inner : S → Poll (Result (Unit {0}) E) × S)
    (oneshot : S → Req → F) where
  -- The stores that a program comes to which makes clients, clones them and uses them.
  pub data Reach : Clients S → Type 0 where
    start : (w : Clients S) → w.handles ≡ [] → Reach w
    made : {w : Clients S} (s : S) → Reach w → Reach (new_from_service s w)
    cloned : {w : Clients S} (i : ℕ) → Reach w → Reach (clone_client i w)
    requested :
        {w : Clients S} (req : Req) (i : ℕ) (p : F × Clients S)
        → request clone oneshot req i w ≡ some p
        → Reach w
        → Reach p.1
    polled :
        {w : Clients S} (i : ℕ) (p : Poll (Result (Unit {0}) E) × Clients S)
        → poll_ready clone poll_inner i w ≡ some p
        → Reach w
        → Reach p.1

  held_by :
      {A : Type 0} (f : S → A × S) (i : ℕ) (w : Clients S) (p : A × Clients S)
      → on_client clone f i w ≡ some p
      → (s : S) × (service_of w i ≡ some s)
  unfolding on_client service_of
  held_by f i w p e = elim (Option-cases (get_elem? w.handles i)) [
    | inl gone ↦ absurd (none-ne-some (ap (map_some (λ c. on_cell clone f i c w)) (sym gone) ∙ e))
    | inr (c, held) ↦ (w.cells c, ap (map_some w.cells) held)
  ]

  used-IsValid :
      {A : Type 0} (f : S → A × S) (i : ℕ) (w : Clients S) (p : A × Clients S)
      → IsValid w
      → on_client clone f i w ≡ some p
      → IsValid p.1
  used-IsValid f i w p v e =
      let (s, here) = held_by f i w p e in
      let (q, same, apart) = on_client-Apart clone f i s w v here in
      subst (λ (q : _ × Clients S). IsValid q.1) (some-injective (sym same ∙ e)) apart.valid

  Reach-IsValid : {w : Clients S} → Reach w → IsValid w
  unfolding request poll_ready
  Reach-IsValid (start w none_yet) =
      λ i c e. absurd (none-ne-some (ap (λ hs. get_elem? hs i) (sym none_yet) ∙ e))
  Reach-IsValid (made {w} s before) = new-IsValid s w (Reach-IsValid before)
  Reach-IsValid (cloned {w} i before) = clone-IsValid i w (Reach-IsValid before)
  Reach-IsValid (requested {w} req i p e before) =
      used-IsValid (λ s. (oneshot s req, clone s)) i w p (Reach-IsValid before) e
  Reach-IsValid (polled {w} i p e before) = used-IsValid poll_inner i w p (Reach-IsValid before) e

  -- Clients that share a service do not see each other. However the clients came about, a request by
  -- one of them, or a poll for readiness, works on the service that it holds or on a clone of that,
  -- leaves it with what comes of that, and leaves every other client the service that it had.
  pub request-Apart :
      (req : Req) (i : ℕ) (s : S) (w : Clients S)
      → Reach w
      → service_of w i ≡ some s
      → ((p : F × Clients S) × (request clone oneshot req i w ≡ some p)
          × Apart clone (λ s. (oneshot s req, clone s)) i s w p)
        × ((p : Poll (Result (Unit {0}) E) × Clients S) × (poll_ready clone poll_inner i w ≡ some p)
            × Apart clone poll_inner i s w p)
  unfolding request poll_ready
  request-Apart req i s w before held = (
    on_client-Apart clone (λ s. (oneshot s req, clone s)) i s w (Reach-IsValid before) held,
    on_client-Apart clone poll_inner i s w (Reach-IsValid before) held,
  )
