-- ===== src/Engine/Parts.antt =====
-- The columns of src/lab_commons/resources/engine.py's rows, and the parts of a demand: amounts.
use lab_commons.Commons.{
  ℕ, String, ◌≡◌, refl, ap, ap₂, ◌∙◌, Bool, false, not, ◌&&◌, [], ◌∷◌, keep, str_eq, eq_iff, arith,
  if◌then◌else◌,
}
use lab_commons.Commons.Dict.{Dict, lookup, insert, elem, keys, lookup-insert}
use lab_commons.Compute.Resources.{amount}
use lab_commons.Compute.Unique.{IsUnique, amount-of_amounts}
use lab_commons.Compute.Vectors.{amount_absent}
use lab_commons.Box.Demand.{cpu_name, mem_name, is_share}
use lab_commons.Box.Room.{merge}
use lab_commons.Box.Amounts.{IsUnique-merge}
use lab_commons.Engine.Store.{row_columns, row_vector}

pub amount-insert :
    (k j : String) (n : ℕ) (d : Dict ℕ)
    → amount k (insert j n d) ≡ (if str_eq j k then n else amount k d)
unfolding amount
amount-insert k j n d = ground (arith, lookup-insert j k n d, eq_iff j k)

-- What the second dictionary names wins.
amount-merge :
    (k : String) (d e : Dict ℕ)
    → IsUnique e
    → amount k (merge d e) ≡ (if elem k (keys e) then amount k e else amount k d)
unfolding amount
amount-merge k d [] h = refl
amount-merge k d ((j, n) ∷ e) h =
    amount-merge k (insert j n d) e h.1
    ∙ ground (arith, amount-insert k j n d, eq_iff j k, h.0, amount_absent k e)

-- The entries whose names pass a test.
module _ (p : String → Bool) where
  abbrev passing : Dict ℕ → Dict ℕ
  passing d = keep (λ i. p i.0) d

  amount-keep : (k : String) (d : Dict ℕ) → amount k (passing d) ≡ (if p k then amount k d else 0)
  unfolding amount lookup
  amount-keep k [] = ground arith
  amount-keep k ((j, n) ∷ d) = ground (arith, amount-keep k d, eq_iff j k)

  elem-keep : (k : String) (d : Dict ℕ) → elem k (keys (passing d)) ≡ (p k && elem k (keys d))
  elem-keep k [] = ground arith
  elem-keep k ((j, n) ∷ d) = ground (arith, elem-keep k d, eq_iff j k)

  IsUnique-keep : (d : Dict ℕ) → IsUnique d → IsUnique (passing d)
  IsUnique-keep [] h = h
  IsUnique-keep ((j, n) ∷ d) h = ground (arith, IsUnique-keep d h.1, elem-keep j d, h.0)

abbrev is_other : String → Bool
is_other name = not (is_share name)

abbrev shares : Dict ℕ → Dict ℕ
shares d = (cpu_name, amount cpu_name d) ∷ (mem_name, amount mem_name d) ∷ []

amount-shares :
    (k : String) (d : Dict ℕ) → amount k (shares d) ≡ (if is_share k then amount k d else 0)
unfolding amount lookup
amount-shares k d = ground (arith, eq_iff cpu_name k, eq_iff mem_name k)

chosen :
    (s e : Bool) (n : ℕ)
    → (e ≡ false → n ≡ 0)
    → (if not s && e then (if not s then n else 0) else (if s then n else 0)) ≡ n
chosen s e n h = ground arith

-- A demand is read back from the columns of its row.
pub vector-columns :
    (k : String) (d : Dict ℕ)
    → IsUnique d
    → let c = row_columns d in amount k (row_vector c.0 c.1 c.2) ≡ amount k d
unfolding row_columns row_vector
vector-columns k d h =
    amount-of_amounts k (merge (shares d) (passing is_other d))
      (IsUnique-merge (shares d) (passing is_other d) (refl, (refl, tt)))
    ∙ amount-merge k (shares d) (passing is_other d) (IsUnique-keep is_other d h)
    ∙ ap₂ (λ a b. if elem k (keys (passing is_other d)) then a else b) (amount-keep is_other k d)
        (amount-shares k d)
    ∙ ap
        (λ b.
          if b
          then (if is_other k then amount k d else 0)
          else (if is_share k then amount k d else 0))
        (elem-keep is_other k d)
    ∙ chosen (is_share k) (elem k (keys d)) (amount k d) (amount_absent k d)
