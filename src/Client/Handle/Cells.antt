-- ===== src/Client/Handle/Cells.antt =====
-- Handles and their cells: what holds of them in every store that clients come to.
use hyperdriver.Base.{
  ◌⊎◌, ℕ, zero, suc, ◌<◌, ◌≡◌, ◌≢◌, refl, sym, ap, ◌==◌, inl, inr, if◌then◌else◌, List, [], ◌∷◌,
  get_elem?, ◌++◌, Option, none, some, map_some, unwrap_or, arith,
}
use hyperdriver.Client.Handle.{Clients, new_from_service, clone_client, owned, count}

-- Every handle holds a cell that is in use.
abbrev pub IsValid : {S : Type 0} → Clients S → Type 0
IsValid w = (i c : ℕ) → get_elem? w.handles i ≡ some c → c < w.next

count_pos : (hs : List ℕ) (i c : ℕ) → get_elem? hs i ≡ some c → 0 < count c hs
unfolding count
count_pos [] i c e = cc
count_pos (d ∷ hs) zero c e = ground arith
count_pos (d ∷ hs) (suc i) c e = ground (arith, count_pos hs i c e)

-- The cell of an only owner is held by no other client.
pub only_owner :
    (hs : List ℕ) (i j c : ℕ)
    → get_elem? hs i ≡ some c
    → get_elem? hs j ≡ some c
    → count c hs ≡ 1
    → i ≡ j
unfolding count
only_owner [] i j c e f n = cc
only_owner (d ∷ hs) zero zero c e f n = refl
only_owner (d ∷ hs) zero (suc j) c e f n = ground (arith, count_pos hs j c f)
only_owner (d ∷ hs) (suc i) zero c e f n = ground (arith, count_pos hs i c e)
only_owner (d ∷ hs) (suc i) (suc j) c e f n =
    ground (arith, only_owner hs i j c e f, count_pos hs j c f)

pub some-injective : {A : Type 0} {x y : A} → some x ≡ some y → x ≡ y
some-injective {x = x} e = ap (unwrap_or x) e

pub none-ne-some : {A : Type 0} {x : A} → ◌≢◌ {A = Option A} none (some x)
none-ne-some e = cc

map_some-congr :
    {S : Type 0} (o : Option ℕ) (g g' : ℕ → S)
    → ((d : ℕ) → o ≡ some d → g d ≡ g' d)
    → map_some g o ≡ map_some g' o
map_some-congr none g g' h = refl
map_some-congr (some d) g g' h = ap some (h d refl)

if_ne :
    {S : Type 0} (cells : ℕ → S) (c : ℕ) (s : S) (d : ℕ)
    → d ≢ c
    → (if d == c then s else cells d) ≡ cells d
if_ne cells c s d n = ground arith

pub fresh : {d n : ℕ} → d < n → d ≢ n
fresh lt same = omega arith

pub if_self : {S : Type 0} (cells : ℕ → S) (c : ℕ) (s : S) → (if c == c then s else cells c) ≡ s
if_self cells c s = ground arith

-- A change of one cell is not seen through a handle on another one.
pub unseen :
    {S : Type 0} (cells : ℕ → S) (c : ℕ) (s : S) (o : Option ℕ)
    → ((d : ℕ) → o ≡ some d → d ≢ c)
    → map_some (λ d. if d == c then s else cells d) o ≡ map_some cells o
unseen cells c s o h = map_some-congr o _ cells (λ d e. if_ne cells c s d (h d e))

get_elem?-append :
    (hs : List ℕ) (i c d : ℕ)
    → get_elem? (hs ++ d ∷ []) i ≡ some c
    → (get_elem? hs i ≡ some c) ⊎ (c ≡ d)
get_elem?-append [] zero c d e = inr (sym (some-injective e))
get_elem?-append [] (suc i) c d e = cc
get_elem?-append (x ∷ hs) zero c d e = inl e
get_elem?-append (x ∷ hs) (suc i) c d e = get_elem?-append hs i c d e

pub new-IsValid : {S : Type 0} (s : S) (w : Clients S) → IsValid w → IsValid (new_from_service s w)
unfolding new_from_service
new-IsValid s w v i c e = elim (get_elem?-append w.handles i c w.next e) [
  | inl old ↦ let below : c < w.next = v i c old in omega arith
  | inr last ↦ omega arith
]

owned_below :
    (hs : List ℕ) (n : ℕ) (o : Option ℕ)
    → ((i c : ℕ) → get_elem? hs i ≡ some c → c < n)
    → ((c : ℕ) → o ≡ some c → c < n)
    → (i c : ℕ) → get_elem? (owned hs o) i ≡ some c
    → c < n
unfolding owned
owned_below hs n none v h i c e = v i c e
owned_below hs n (some d) v h i c e = elim (get_elem?-append hs i c d e) [
  | inl old ↦ v i c old
  | inr last ↦ let below : d < n = h d refl in omega arith
]

pub clone-IsValid : {S : Type 0} (i : ℕ) (w : Clients S) → IsValid w → IsValid (clone_client i w)
unfolding clone_client
clone-IsValid i w v = owned_below w.handles w.next (get_elem? w.handles i) v (v i)
