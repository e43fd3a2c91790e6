-- ===== src/Dimensions/Table.antt =====
-- src/lab_commons/resources/dimensions.py: the table of dimensions and its check at import.
use lab_commons.Commons.{
  ℕ, String, Option, none, some, List, [], ◌∷◌, Result, ok, err, Error, ◌>>=◌, ◌>>◌,
}

pub data Accounting : Type 0 where
  counted box_global elapsed : Accounting

pub data Scope : Type 0 where
  pool box : Scope

-- `unenforced` is the member NONE.
pub data Enforcement : Type 0 where
  records indexed os_reading unenforced : Enforcement

pub record Dimension : Type 0 where
  pub name : String
  pub unit : String
  pub accounting : Accounting
  pub enforcement : Enforcement
  pub conservative : Option ℕ
  pub note : String
  pub scope : Scope

abbrev pub seats_dimension : Dimension
seats_dimension = record {
  name = "seats";
  unit = "count";
  accounting = counted;
  enforcement = indexed;
  conservative = some 1;
  note = "concurrent jobs, or licence seats. An unmeasured box SERIALISES: one at a time.";
  scope = pool;
}

abbrev pub box_seats_dimension : Dimension
box_seats_dimension = record {
  name = "box_seats";
  unit = "count";
  accounting = counted;
  enforcement = indexed;
  conservative = some 1;
  note = "the whole box, one at a time, for every pool that demands it.";
  scope = box;
}

abbrev pub memory_dimension : Dimension
memory_dimension = record {
  name = "memory";
  unit = "bytes";
  accounting = box_global;
  enforcement = os_reading;
  conservative = some 1;
  note = "resident bytes. An unmeasured box demands CONSERVATIVE_MEMORY_SHARE of TOTAL be free.";
  scope = pool;
}

abbrev pub cpu_dimension : Dimension
cpu_dimension = record {
  name = "cpu";
  unit = "cores";
  accounting = counted;
  enforcement = records;
  conservative = some 1;
  note =
      "cores a job expects to saturate. An unmeasured box grants the minimum width, never a guess.";
  scope = pool;
}

abbrev pub wallclock_dimension : Dimension
wallclock_dimension = record {
  name = "wallclock";
  unit = "seconds";
  accounting = elapsed;
  enforcement = unenforced;
  conservative = none;
  note =
      "how long the job expects to run. RECORDED, never enforced here: a duration is not a stock.";
  scope = pool;
}

abbrev pub disk_dimension : Dimension
disk_dimension = record {
  name = "disk";
  unit = "bytes";
  accounting = box_global;
  enforcement = unenforced;
  conservative = none;
  note = "shape only; no reader";
  scope = pool;
}

abbrev pub gpu_dimension : Dimension
gpu_dimension = record {
  name = "gpu";
  unit = "count";
  accounting = counted;
  enforcement = unenforced;
  conservative = none;
  note = "shape only; no reader";
  scope = pool;
}

-- `DIMENSIONS`, its values in order.
abbrev pub dimensions : List Dimension
dimensions =
    seats_dimension ∷ box_seats_dimension ∷ memory_dimension ∷ cpu_dimension ∷ wallclock_dimension
    ∷ disk_dimension ∷ gpu_dimension ∷ []

-- `_conservative_floor(dimension)`
unfoldable pub conservative_floor : Dimension → Result ℕ
conservative_floor d = elim d.conservative [ none ↦ err Error.value_error | some n ↦ ok n ]

abbrev pub refuse_value : Option ℕ → Result (Unit {0})
refuse_value none = ok tt
refuse_value (some n) = err Error.value_error

-- One round of the loop of `_check_dimension_table`.
unfoldable pub check_dimension : Dimension → Result (Unit {0})
unfolding conservative_floor
check_dimension d = elim d.enforcement [
  | unenforced ↦ refuse_value d.conservative
  | _ ↦ conservative_floor d >>= λ n. ok tt
]

-- `_check_dimension_table(dimensions)`
unfoldable pub check_dimension_table : List Dimension → Result (Unit {0})
unfolding check_dimension
check_dimension_table [] = ok tt
check_dimension_table (d ∷ ds) = check_dimension d >> check_dimension_table ds
