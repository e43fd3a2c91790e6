-- ===== src/Box/Pool.antt =====
-- The looks of src/lab_commons/box/ledger.py's waiters against a pool of cores and bytes: the claims as
-- allotments, of which some leave and at most one joins.
use mathlib.Core.List.{Sublistᴰ}
use mathlib.Core.List.Sublistᴰ
use lab_commons.Commons.{
  ℕ, ◌-◌, ◌*◌, ◌≤◌, ◌==◌, String, ◌≡◌, refl, sym, subst, ap, ap₂, ◌∙◌, Bool, false, ◌||◌, Option,
  List, [], ◌∷◌, ◌++◌, map, keep, sum_of, All, Bool-cases, inl, inr,
}
use lab_commons.Commons.Dict.{elem, keys}
use lab_commons.Compute.Resources.{whole}
use lab_commons.Compute.Vectors.{elem-union}
use lab_commons.Box.Demand.{cpu_name, mem_name, Capacity}
use lab_commons.Box.Room.{seat_names}
use lab_commons.Box.Ledger.{ClaimRow, Ledger, reap_rows, keeps_claim, is_possible, update}
use lab_commons.Box.Queue.{holding_of}

-- The whole cores and the bytes of one claim.
pub record Allotment : Type 0 where
  pub cpu : ℕ
  pub memory : ℕ

abbrev pub cpu_of : List Allotment → ℕ
cpu_of held = sum_of (λ (a : Allotment). a.cpu * whole) held

abbrev pub memory_of : List Allotment → ℕ
memory_of held = sum_of (λ (a : Allotment). a.memory) held

-- The pool: an allotment joins only within what the others leave of the capacity.
pub data PoolStep (capacity : Capacity) : List Allotment → List Allotment → Type 0 where
  frees : {held left : List Allotment} → Sublistᴰ left held → PoolStep capacity held left
  allots :
      {held left : List Allotment} (a : Allotment)
      → Sublistᴰ left held
      → a.cpu * whole ≤ capacity.cpu - cpu_of left
      → a.memory ≤ capacity.memory - memory_of left
      → PoolStep capacity held (left ++ a ∷ [])

abbrev pub allotment : ClaimRow → Allotment
allotment r = record { cpu = r.cpu; memory = r.memory }

-- The pool that a ledger is.
abbrev pub pool : Ledger → List Allotment
pool ledger = map allotment ledger.claims

module _ {ℓ} {A : Type ℓ} where
  pub keep-Sub : (p : A → Bool) (xs : List A) → Sublistᴰ (keep p xs) xs
  keep-Sub p [] = Sublistᴰ.slnil
  keep-Sub p (x ∷ xs) = elim (Bool-cases (p x)) [
    | inl h ↦ rw h (Sublistᴰ.cons-cons refl (keep-Sub p xs))
    | inr h ↦ rw h (Sublistᴰ.cons (keep-Sub p xs))
  ]

  pub All-Sub {κ} : (P : A → Type κ) {xs ys : List A} → Sublistᴰ xs ys → All P ys → All P xs
  All-Sub P Sublistᴰ.slnil h = h
  All-Sub P (Sublistᴰ.cons s) h = All-Sub P s h.1
  All-Sub P (Sublistᴰ.cons-cons e s) h = (subst P (sym e) h.0, All-Sub P s h.1)

pub map-Sub {ℓ κ} :
    {A : Type ℓ} {B : Type κ} (f : A → B) {xs ys : List A}
    → Sublistᴰ xs ys
    → Sublistᴰ (map f xs) (map f ys)
map-Sub f Sublistᴰ.slnil = Sublistᴰ.slnil
map-Sub f (Sublistᴰ.cons s) = Sublistᴰ.cons (map-Sub f s)
map-Sub f (Sublistᴰ.cons-cons e s) = Sublistᴰ.cons-cons (ap f e) (map-Sub f s)

pub reap_rows-Sub :
    (same : ℕ → Option ℕ → Bool) (answers : List String → Bool) (now : ℕ) (dead : List ℕ)
    (ledger : Ledger)
    → Sublistᴰ (reap_rows same answers now dead ledger).claims ledger.claims
unfolding reap_rows
reap_rows-Sub same answers now dead ledger =
    Sublistᴰ.trans
      (keep-Sub (keeps_claim same answers now dead) (keep (is_possible now) ledger.claims))
      (keep-Sub (is_possible now) ledger.claims)

-- No seat of the row is named like a share.
pub record IsPlain (r : ClaimRow) : Type 0 where
  pub no_cpu : elem cpu_name (keys r.seats) ≡ false
  pub no_mem : elem mem_name (keys r.seats) ≡ false

pub names-no_cpu :
    (rows : List ClaimRow)
    → All IsPlain rows
    → elem cpu_name (seat_names (map holding_of rows)) ≡ false
names-no_cpu [] h = refl
names-no_cpu (r ∷ rows) h =
    elem-union cpu_name (keys r.seats) (seat_names (map holding_of rows))
    ∙ ap₂ ◌||◌ h.0.no_cpu (names-no_cpu rows h.1)

pub names-no_mem :
    (rows : List ClaimRow)
    → All IsPlain rows
    → elem mem_name (seat_names (map holding_of rows)) ≡ false
names-no_mem [] h = refl
names-no_mem (r ∷ rows) h =
    elem-union mem_name (keys r.seats) (seat_names (map holding_of rows))
    ∙ ap₂ ◌||◌ h.0.no_mem (names-no_mem rows h.1)

pub update-allotments :
    (n : ℕ) (change : ClaimRow → ClaimRow) (rows : List ClaimRow)
    → ((r : ClaimRow) → allotment (change r) ≡ allotment r)
    → map allotment (update n change rows) ≡ map allotment rows
update-allotments n change [] h = refl
update-allotments n change (r ∷ rows) h = elim (Bool-cases (r.id == n)) [
  | inl e ↦ rw e (ap₂ ◌∷◌ (h r) (update-allotments n change rows h))
  | inr e ↦ rw e (ap (λ l. allotment r ∷ l) (update-allotments n change rows h))
]

pub update-IsPlain :
    (n : ℕ) (change : ClaimRow → ClaimRow) (rows : List ClaimRow)
    → ((r : ClaimRow) → (change r).seats ≡ r.seats)
    → All IsPlain rows
    → All IsPlain (update n change rows)
update-IsPlain n change [] h a = tt
update-IsPlain n change (r ∷ rows) h a = elim (Bool-cases (r.id == n)) [
  | inl e ↦ rw e (
    record { no_cpu = rw (h r) a.0.no_cpu; no_mem = rw (h r) a.0.no_mem },
    update-IsPlain n change rows h a.1,
  )
  | inr e ↦ rw e (a.0, update-IsPlain n change rows h a.1)
]
