-- ===== src/Box/Measure.antt =====
-- What src/lab_commons/box/providers.py measures of cores and memory, whoever asks, under the rule.
use lab_commons.Commons.{
  ℕ, ◌+◌, ◌-◌, ◌*◌, ◌≤◌, String, ◌≡◌, refl, ap, ap₂, ◌∙◌, subst, true, false, ◌||◌, List, [],
  Option, ◌∷◌, map, arith, str_eq, sum_of, none,
}
use lab_commons.Commons.Dict.{Dict, elem, keys}
use lab_commons.Compute.Resources.{Resources, whole, amount, of_amounts, tabulate, union, add}
use lab_commons.Compute.Vectors.{elem-union, amount-add}
use lab_commons.Compute.Admission.{Admission, present, admits, counted_supply}
use lab_commons.Compute.Rule.{admit_iff}
use lab_commons.Box.Demand.{cpu_name, mem_name, Capacity, Holding, seats}
use lab_commons.Box.Room.{
  Reading, seat_names, room_cpu, room_memory, room, seats_left, claimed, os_supply, measured,
}
use lab_commons.Box.Order.{vector_of}
use lab_commons.Box.Amounts.{
  amount-shares_cpu, amount-shares_mem, elem-tabulate, amount-of_amounts_absent, of_amounts_twice,
  seats-no_cpu, seats-no_mem, sum-vectors_cpu, sum-vectors_mem,
}

-- No seat is named like a share of the machine, nor is the OS.
pub record SeatsNoShare (os : String) (capacity : Capacity) (held : List Holding) : Type 0 where
  pub capacity_cpu : elem cpu_name (keys capacity.seats) ≡ false
  pub capacity_mem : elem mem_name (keys capacity.seats) ≡ false
  pub held_cpu : elem cpu_name (seat_names held) ≡ false
  pub held_mem : elem mem_name (seat_names held) ≡ false
  pub os_cpu : str_eq os cpu_name ≡ false
  pub os_mem : str_eq os mem_name ≡ false

module _ (os : String) (capacity : Capacity) (held : List Holding) (reading : Reading)
    (asker : Option ℕ) (sound : SeatsNoShare os capacity held) where
  abbrev left : String → ℕ
  left name = seats_left name capacity held reading * whole

  abbrev room_seats : List String
  room_seats = union (keys capacity.seats) (union [] (seat_names held))

  abbrev pub cores_left : ℕ
  cores_left = room_cpu capacity held reading asker

  abbrev pub memory_left : ℕ
  memory_left = room_memory capacity held reading asker

  amount-room_cpu :
      amount cpu_name (room capacity held reading [] asker) ≡ room_cpu capacity held reading asker
  unfolding room
  amount-room_cpu = amount-shares_cpu cores_left memory_left (tabulate left room_seats) (
      elem-tabulate cpu_name left room_seats (
        elem-union cpu_name (keys capacity.seats) (seat_names held)
        ∙ ap₂ ◌||◌ sound.capacity_cpu sound.held_cpu))

  amount-room_mem :
      amount mem_name (room capacity held reading [] asker)
      ≡ room_memory capacity held reading asker
  unfolding room
  amount-room_mem = amount-shares_mem cores_left memory_left (tabulate left room_seats) (
      elem-tabulate mem_name left room_seats (
        elem-union mem_name (keys capacity.seats) (seat_names held)
        ∙ ap₂ ◌||◌ sound.capacity_mem sound.held_mem))

  module _ (names : List String) where
    abbrev tools : List String
    tools = union (keys capacity.seats) names

    abbrev seats_of : String → ℕ
    seats_of name = amount name (room capacity held reading tools none) + claimed name held * whole

    abbrev system_cpu : ℕ
    system_cpu =
        amount cpu_name (room capacity held reading [] asker) + sum_of (λ h. h.cpu * whole) held

    abbrev system_memory : ℕ
    system_memory =
        amount mem_name (room capacity held reading [] asker) + sum_of (λ h. h.memory) held

    abbrev pub supplied : Resources
    supplied = (measured capacity held reading names asker os).resources

    amount-measured_cpu :
        elem cpu_name names ≡ false
        → amount cpu_name supplied
          ≡ room_cpu capacity held reading asker + sum_of (λ h. h.cpu * whole) held
    unfolding measured
    amount-measured_cpu h =
        amount-add cpu_name (os_supply capacity held reading asker os)
          (of_amounts (tabulate seats_of tools))
        ∙ ap₂ (λ a b. a + b)
            (amount-shares_cpu system_cpu system_memory ((os, system_cpu) ∷ [])
                (rw sound.os_cpu refl)
              ∙ ap (λ a. a + sum_of (λ h. h.cpu * whole) held) amount-room_cpu)
            (amount-of_amounts_absent cpu_name (tabulate seats_of tools) (
              elem-tabulate cpu_name seats_of (union (keys capacity.seats) names)
                (elem-union cpu_name (keys capacity.seats) names ∙ ap₂ ◌||◌ sound.capacity_cpu h)))
        ∙ omega arith

    amount-measured_mem :
        elem mem_name names ≡ false
        → amount mem_name supplied
          ≡ room_memory capacity held reading asker + sum_of (λ h. h.memory) held
    unfolding measured
    amount-measured_mem h =
        amount-add mem_name (os_supply capacity held reading asker os)
          (of_amounts (tabulate seats_of tools))
        ∙ ap₂ (λ a b. a + b)
            (amount-shares_mem system_cpu system_memory ((os, system_cpu) ∷ [])
                (rw sound.os_mem refl)
              ∙ ap (λ a. a + sum_of (λ h. h.memory) held) amount-room_mem)
            (amount-of_amounts_absent mem_name (tabulate seats_of tools) (
              elem-tabulate mem_name seats_of (union (keys capacity.seats) names)
                (elem-union mem_name (keys capacity.seats) names ∙ ap₂ ◌||◌ sound.capacity_mem h)))
        ∙ omega arith

    supplied_twice : of_amounts supplied ≡ supplied
    unfolding measured add
    supplied_twice = of_amounts_twice (
        tabulate
          (λ k.
            amount k (os_supply capacity held reading asker os)
            + amount k (of_amounts (tabulate seats_of tools)))
          (union (keys (os_supply capacity held reading asker os))
            (keys (of_amounts (tabulate seats_of tools)))))

  module _ (demand : Dict ℕ) where
    abbrev pub asked_names : List String
    asked_names = keys (seats demand)

    -- The rule's verdict on the measure of the demand's names.
    abbrev pub verdict : String → Admission
    verdict what =
        admits (supplied asked_names) demand
          (present (measured capacity held reading asked_names asker os)) [] (map vector_of held)
          what

    -- What the rule says of a demand that fits.
    within :
        (what : String)
        → (verdict what).admitted ≡ true
        → (k : String)
        → amount k (of_amounts demand)
          ≤ amount k (supplied asked_names) - sum_of (amount k) (map vector_of held)
    unfolding admits counted_supply
    within what fit_now k =
        let (_, f) =
          (admit_iff (record { repo = ""; sha = ""; producer = what; needs = [] }) demand
              (counted_supply (supplied asked_names)
                (present (measured capacity held reading asked_names asker os)))
              (map vector_of held)).0
            fit_now in
        subst
          (λ (r : Resources).
            amount k (of_amounts demand) ≤ amount k r - sum_of (amount k) (map vector_of held))
          (supplied_twice asked_names) (f k)

    pub verdict-room_cpu :
        (what : String)
        → (verdict what).admitted ≡ true
        → amount cpu_name (of_amounts demand) ≤ cores_left
    verdict-room_cpu what fit_now = omega (
      arith,
      within what fit_now cpu_name,
      amount-measured_cpu asked_names (seats-no_cpu demand),
      sum-vectors_cpu held sound.held_cpu,
    )

    pub verdict-room_mem :
        (what : String)
        → (verdict what).admitted ≡ true
        → amount mem_name (of_amounts demand) ≤ memory_left
    verdict-room_mem what fit_now = omega (
      arith,
      within what fit_now mem_name,
      amount-measured_mem asked_names (seats-no_mem demand),
      sum-vectors_mem held sound.held_mem,
    )
