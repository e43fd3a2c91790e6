-- ===== src/Box/Bounds.antt =====
-- `fits` of src/lab_commons/box/order.py against the cores and the memory of the machine.
use lab_commons.Commons.{
  ℕ, ◌+◌, ◌-◌, ◌*◌, ◌≤◌, String, ◌≡◌, refl, ap, subst, true, not, List, [], ◌∷◌, min, arith, keep,
  sum_of, none,
}
use lab_commons.Commons.Dict.{Dict}
use lab_commons.Compute.Resources.{whole, amount, of_amounts}
use lab_commons.Box.Demand.{cpu_name, mem_name, Capacity, Holding}
use lab_commons.Box.Room.{
  Reading, is_own, own_cpu, owed_cpu, own_memory, owed_memory, room_cpu, room_memory,
}
use lab_commons.Box.Order.{fits}
use lab_commons.Box.Measure.{SeatsNoShare, verdict-room_cpu, verdict-room_mem}

nobody_owns : (held : List Holding) → keep (is_own none) held ≡ []
nobody_owns [] = refl
nobody_owns (h ∷ held) = nobody_owns held

all_others : (held : List Holding) → keep (λ h. not (is_own none h)) held ≡ held
all_others [] = refl
all_others (h ∷ held) = ap (λ l. h ∷ l) (all_others held)

module _ (os : String) (capacity : Capacity) (held : List Holding) (reading : Reading)
    (sound : SeatsNoShare os capacity held) (demand : Dict ℕ)
    (fit_now : fits os capacity held reading demand ≡ true) where
  -- The same of any others and own claims.
  abbrev pub cores_now : List Holding → List Holding → ℕ
  cores_now others own =
      min (reading.idle_cores - capacity.kept_cpu - sum_of (owed_cpu reading) others)
        (capacity.cpu - (sum_of (λ h. h.cpu * whole) others + sum_of (own_cpu reading) own))

  abbrev pub memory_now : List Holding → List Holding → ℕ
  memory_now others own =
      min (reading.available_bytes - capacity.kept_bytes - sum_of (owed_memory reading) others)
        (capacity.memory - (sum_of (λ h. h.memory) others + sum_of (own_memory reading) own))

  fits-room_cpu : amount cpu_name (of_amounts demand) ≤ room_cpu capacity held reading none
  unfolding fits
  fits-room_cpu = verdict-room_cpu os capacity held reading none sound demand "" fit_now

  fits-room_mem : amount mem_name (of_amounts demand) ≤ room_memory capacity held reading none
  unfolding fits
  fits-room_mem = verdict-room_mem os capacity held reading none sound demand "" fit_now

  -- A demand that fits takes no more than the capacity leaves beside the claims, and no more than is
  -- idle once the reserve is kept and every claim has what it is still owed; so of cores and of bytes.
  pub fits_within :
      (amount cpu_name (of_amounts demand) ≤ capacity.cpu - sum_of (λ h. h.cpu * whole) held)
      × (amount cpu_name (of_amounts demand)
          ≤ reading.idle_cores - capacity.kept_cpu - sum_of (owed_cpu reading) held)
      × (amount mem_name (of_amounts demand) ≤ capacity.memory - sum_of (λ h. h.memory) held)
      × (amount mem_name (of_amounts demand)
          ≤ reading.available_bytes - capacity.kept_bytes - sum_of (owed_memory reading) held)
  unfolding room_cpu room_memory
  fits_within =
      let c = fits-room_cpu in
      let m = fits-room_mem in
      let o = nobody_owns held in
      let a = all_others held in
      let c' : amount cpu_name (of_amounts demand) ≤ cores_now held [] =
        subst (λ l. amount cpu_name (of_amounts demand) ≤ cores_now held l) o
          (subst (λ l. amount cpu_name (of_amounts demand) ≤ cores_now l (keep (is_own none) held))
            a c) in
      let m' : amount mem_name (of_amounts demand) ≤ memory_now held [] =
        subst (λ l. amount mem_name (of_amounts demand) ≤ memory_now held l) o
          (subst (λ l. amount mem_name (of_amounts demand) ≤ memory_now l (keep (is_own none) held))
            a m) in
      (omega arith, omega arith, omega arith, omega arith)
