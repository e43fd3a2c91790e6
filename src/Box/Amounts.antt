-- ===== src/Box/Amounts.antt =====
-- The amounts of the vectors that src/lab_commons/box builds from cores, memory and seats: lemmas.
use lab_commons.Commons.{
  ℕ, zero, suc, ◌+◌, ◌*◌, String, ◌≡◌, refl, ap, ap₂, ◌∙◌, false, List, [], ◌∷◌, map, arith, eq_iff,
  sum_of,
}
use lab_commons.Commons.Dict.{Dict, lookup, insert, elem, keys, lookup-insert}
use lab_commons.Compute.Resources.{whole, amount, of_amounts, tabulate}
use lab_commons.Compute.Vectors.{elem-union}
use lab_commons.Compute.Unique.{IsUnique, IsUnique-insert, amount-of_amounts}
use lab_commons.Box.Demand.{cpu_name, mem_name, Holding, seats}
use lab_commons.Box.Room.{merge, seat_names}
use lab_commons.Box.Order.{vector, vector_of}

keys-tabulate : (f : String → ℕ) (ns : List String) → keys (tabulate f ns) ≡ ns
keys-tabulate f [] = refl
keys-tabulate f (n ∷ ns) = ap (λ l. n ∷ l) (keys-tabulate f ns)

-- A dictionary of amounts leaves those of the names that it does not have.
amount-merge :
    (k : String) (d e : Dict ℕ) → elem k (keys e) ≡ false → amount k (merge d e) ≡ amount k d
unfolding amount
amount-merge k d [] h = refl
amount-merge k d ((j, n) ∷ e) h =
    amount-merge k (insert j n d) e (ground arith)
    ∙ ground (arith, lookup-insert j k n d, eq_iff j k, eq_iff k j)

pub IsUnique-merge : (d e : Dict ℕ) → IsUnique d → IsUnique (merge d e)
IsUnique-merge d [] h = h
IsUnique-merge d ((j, n) ∷ e) h = IsUnique-merge (insert j n d) e (IsUnique-insert j n d h)

abbrev pub shares : ℕ → ℕ → Dict ℕ
shares cpu memory = (cpu_name, cpu) ∷ (mem_name, memory) ∷ []

-- Cores, memory, and amounts of other names.
pub amount-shares_cpu :
    (cpu memory : ℕ) (e : Dict ℕ)
    → elem cpu_name (keys e) ≡ false
    → amount cpu_name (of_amounts (merge (shares cpu memory) e)) ≡ cpu
unfolding amount lookup
amount-shares_cpu cpu memory e h =
    amount-of_amounts cpu_name (merge (shares cpu memory) e)
      (IsUnique-merge (shares cpu memory) e (refl, (refl, tt)))
    ∙ amount-merge cpu_name (shares cpu memory) e h

pub amount-shares_mem :
    (cpu memory : ℕ) (e : Dict ℕ)
    → elem mem_name (keys e) ≡ false
    → amount mem_name (of_amounts (merge (shares cpu memory) e)) ≡ memory
unfolding amount lookup
amount-shares_mem cpu memory e h =
    amount-of_amounts mem_name (merge (shares cpu memory) e)
      (IsUnique-merge (shares cpu memory) e (refl, (refl, tt)))
    ∙ amount-merge mem_name (shares cpu memory) e h

pub elem-tabulate :
    (k : String) (f : String → ℕ) (ns : List String)
    → elem k ns ≡ false
    → elem k (keys (tabulate f ns)) ≡ false
elem-tabulate k f ns h = ap (elem k) (keys-tabulate f ns) ∙ h

-- A name that a dictionary does not have has no amount in its vector.
pub amount-of_amounts_absent :
    (k : String) (d : Dict ℕ) → elem k (keys d) ≡ false → amount k (of_amounts d) ≡ 0
unfolding amount of_amounts
amount-of_amounts_absent k [] h = refl
amount-of_amounts_absent k ((j, zero) ∷ d) h = ground (arith, amount-of_amounts_absent k d)
amount-of_amounts_absent k ((j, suc n) ∷ d) h = ground (arith, amount-of_amounts_absent k d)

-- A vector made again is the same.
pub of_amounts_twice : (d : Dict ℕ) → of_amounts (of_amounts d) ≡ of_amounts d
unfolding of_amounts
of_amounts_twice [] = refl
of_amounts_twice ((k, zero) ∷ d) = of_amounts_twice d
of_amounts_twice ((k, suc n) ∷ d) = ground (arith, of_amounts_twice d)

-- The seats of a demand do not name its shares.
pub seats-no_cpu : (d : Dict ℕ) → elem cpu_name (keys (seats d)) ≡ false
unfolding seats
seats-no_cpu [] = refl
seats-no_cpu ((k, n) ∷ d) = ground (arith, seats-no_cpu d, eq_iff cpu_name k, eq_iff k cpu_name)

pub seats-no_mem : (d : Dict ℕ) → elem mem_name (keys (seats d)) ≡ false
unfolding seats
seats-no_mem [] = refl
seats-no_mem ((k, n) ∷ d) = ground (arith, seats-no_mem d, eq_iff mem_name k, eq_iff k mem_name)

-- The cores that the claims' vectors add up to.
pub sum-vectors_cpu :
    (held : List Holding)
    → elem cpu_name (seat_names held) ≡ false
    → sum_of (amount cpu_name) (map vector_of held) ≡ sum_of (λ h. h.cpu * whole) held
unfolding vector
sum-vectors_cpu [] free = refl
sum-vectors_cpu (h ∷ held) free =
    let e = elem-union cpu_name (keys h.seats) (seat_names held) in
    ap₂ (λ a b. a + b)
      (amount-shares_cpu (h.cpu * whole) h.memory
        (tabulate (λ k. amount k h.seats * whole) (keys h.seats))
        (elem-tabulate cpu_name _ (keys h.seats) (ground arith)))
      (sum-vectors_cpu held (ground arith))

pub sum-vectors_mem :
    (held : List Holding)
    → elem mem_name (seat_names held) ≡ false
    → sum_of (amount mem_name) (map vector_of held) ≡ sum_of (λ h. h.memory) held
unfolding vector
sum-vectors_mem [] free = refl
sum-vectors_mem (h ∷ held) free =
    let e = elem-union mem_name (keys h.seats) (seat_names held) in
    ap₂ (λ a b. a + b)
      (amount-shares_mem (h.cpu * whole) h.memory
        (tabulate (λ k. amount k h.seats * whole) (keys h.seats))
        (elem-tabulate mem_name _ (keys h.seats) (ground arith)))
      (sum-vectors_mem held (ground arith))
