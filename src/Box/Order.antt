-- ===== src/Box/Order.antt =====
-- src/lab_commons/box/order.py: backfill by reservation. `os` is the name of this platform's OS.
use lab_commons.Commons.{
  ℕ, ◌+◌, ◌*◌, String, Bool, true, false, ◌&&◌, ◌||◌, Option, none, some, List, [], ◌∷◌, ◌++◌, map,
  ltb, leb, ◌==◌, if◌then◌else◌, keep, any, sum_of,
}
use lab_commons.Commons.Dict.{Dict, keys}
use lab_commons.Compute.Resources.{Resources, whole, amount, of_amounts, tabulate}
use lab_commons.Compute.Admission.{present, admits}
use lab_commons.Box.Demand.{cpu_name, mem_name, Capacity, Holding, seats}
use lab_commons.Box.Room.{Reading, usage_of, merge, measured}

-- An earlier ticket's ask; `none` where its row predates the demand columns.
pub record Asked : Type 0 where
  pub cpu : Option ℕ
  pub memory : Option ℕ
  pub seats : Option (Dict ℕ)

-- `_vector(cpu, mem_bytes, seats)`
unfoldable pub vector : ℕ → ℕ → Dict ℕ → Resources
unfolding of_amounts amount
vector cpu memory held_seats = of_amounts (
    merge ((cpu_name, cpu * whole) ∷ (mem_name, memory) ∷ [])
      (tabulate (λ k. amount k held_seats * whole) (keys held_seats)))

abbrev pub vector_of : Holding → Resources
vector_of h = vector h.cpu h.memory h.seats

abbrev positive : ℕ → Bool
positive n = ltb 0 n

-- `contends(holder, ahead)`
unfoldable pub contends : Holding → Asked → Bool
unfolding amount
contends holder ahead = elim ahead.cpu [
  | none ↦ true
  | some cpu ↦ elim ahead.memory [
    | none ↦ true
    | some memory ↦ elim ahead.seats [
      | none ↦ true
      | some wanted ↦
          positive cpu && positive holder.cpu
          || positive memory && positive holder.memory
          || any (λ i. positive i.1 && positive (amount i.0 wanted)) holder.seats
    ]
  ]
]

-- `_released(reading, gone)`
unfoldable pub released : Reading → List Holding → Reading
unfolding usage_of
released reading gone = record reading {
  idle_cores = reading.idle_cores + sum_of (λ h. (usage_of reading h.pid).busy_cores) gone;
  available_bytes =
      reading.available_bytes + sum_of (λ h. (usage_of reading h.pid).resident_bytes) gone;
}

abbrev pub put_moment : ℕ → List ℕ → List ℕ
put_moment m [] = m ∷ []
put_moment m (n ∷ ns) =
    let later = n ∷ put_moment m ns in
    if ltb m n then m ∷ n ∷ ns else if m == n then n ∷ ns else later

-- `sorted({h.deadline for h in held})`
unfoldable pub moments : List Holding → List ℕ
moments [] = []
moments (h ∷ held) = put_moment h.deadline (moments held)

abbrev pub stays : ℕ → List Holding → List Holding
stays moment held = keep (λ h. ltb moment h.deadline) held

abbrev pub leaves : ℕ → List Holding → List Holding
leaves moment held = keep (λ h. leb h.deadline moment) held

-- The loop of `earliest`.
unfoldable pub first_fit : (ℕ → Bool) → List ℕ → Option ℕ
first_fit fit_now [] = none
first_fit fit_now (m ∷ ms) = let rest = first_fit fit_now ms in if fit_now m then some m else rest

module _ (os : String) where
  -- `fits(capacity, held, reading, demand)`
  unfoldable pub fits : Capacity → List Holding → Reading → Dict ℕ → Bool
  unfolding measured admits present vector seats
  fits capacity held reading demand =
      let supply = measured capacity held reading (keys (seats demand)) none os in
      (admits supply.resources demand (present supply) [] (map vector_of held) "").admitted

  -- `demand` fits once every claim ending by `moment` left.
  unfoldable pub fits_at : Capacity → List Holding → Reading → Dict ℕ → ℕ → Bool
  unfolding fits released
  fits_at capacity held reading demand moment =
      fits capacity (stays moment held) (released reading (leaves moment held)) demand

  -- `earliest(capacity, held, reading, demand, now)`: `none` is `inf`.
  unfoldable pub earliest : Capacity → List Holding → Reading → Dict ℕ → ℕ → Option ℕ
  unfolding fits_at first_fit moments
  earliest capacity held reading demand now =
      if fits capacity held reading demand
      then some now
      else first_fit (fits_at capacity held reading demand) (moments held)

  -- `a > b` of two starts.
  abbrev pub later : Option ℕ → Option ℕ → Bool
  later none none = false
  later none (some b) = true
  later (some a) none = false
  later (some a) (some b) = ltb b a

  -- `blocks(asked, jumper, capacity=..., held=..., reading=..., now=...)`
  unfoldable pub blocks : Asked → Holding → Capacity → List Holding → Reading → ℕ → Bool
  unfolding contends vector earliest
  blocks asked jumper capacity held reading now =
      if contends jumper asked
      then elim asked.cpu [
        | none ↦ true
        | some cpu ↦ elim asked.memory [
          | none ↦ true
          | some memory ↦ elim asked.seats [
            | none ↦ true
            | some wanted ↦
                let ahead = vector cpu memory wanted in
                later (earliest capacity (held ++ jumper ∷ []) reading ahead now)
                  (earliest capacity held reading ahead now)
          ]
        ]
      ]
      else false
