-- ===== src/Box/Ended.antt =====
-- src/lab_commons/box/demand.py: how a run in the box ended, and its record in a file. The text of the
-- file is made and read by `json`; here it is the object that it spells, or no file. A value of another
-- JSON type than is written is refused with a type error, where Python keeps it unread.
use lab_commons.Commons.{
  String, ◌≡◌, refl, ap, sym, inl, inr, Bool-cases, Bool, true, false, not, Option, none, some,
  str_eq, ◌==◌, if◌then◌else◌, Result, ok, err, Error, ◌>>=◌, ◌>>◌, guard, eq_iff,
}
use lab_commons.Commons.Int.{ℤ}
use lab_commons.Outcomes.Status.{Status, out_of_memory, timeout, decided}
use lab_commons.Outcomes.Plain.{
  Plain, null, num, str, obj, Fields, end, field, Number, int, get_field, need_field, size_fields,
}

pub record ProcessEnd : Type 0 where
  pub returncode : ℤ
  pub reason : String
  pub peak_mem_bytes : ℤ
  pub cpu_s : Number
  pub wall_s : Number
  pub enforcer : String
  pub key : String
  pub fingerprint : Option String

pub data Ended : Type 0 where
  ended : ProcessEnd → Ended
  refused_run : String → Ended

-- `ended.killed`
unfoldable pub killed : ProcessEnd → Bool
killed e = not (str_eq e.reason "exit")

-- `ended.status`, of `_KILLED_AS`.
unfoldable pub status_of : ProcessEnd → Option Status
status_of e =
    if str_eq e.reason "memory"
    then some out_of_memory
    else if str_eq e.reason "wall"
    then some timeout
    else none

abbrev text_or_null : Option String → Plain
text_or_null none = null
text_or_null (some s) = str s

-- `asdict(ended)`
unfoldable pub end_to_plain : ProcessEnd → Fields
end_to_plain e = field "returncode" (num (int e.returncode)) (
    field "reason" (str e.reason) (
      field "peak_mem_bytes" (num (int e.peak_mem_bytes)) (
        field "cpu_s" (num e.cpu_s) (
          field "wall_s" (num e.wall_s) (
            field "enforcer" (str e.enforcer)
              (field "key" (str e.key) (field "fingerprint" (text_or_null e.fingerprint) end)))))))

-- The object that `write_ended(path, ended)` writes.
unfoldable pub ended_to_plain : Ended → Fields
unfolding end_to_plain
ended_to_plain (ended e) = field "ended" (obj (end_to_plain e)) end
ended_to_plain (refused_run why) = field "refused" (str why) end

abbrev text_from : Plain → Result String
text_from (str s) = ok s
text_from _ = err Error.type_error

abbrev integer_from : Plain → Result ℤ
integer_from (num (int z)) = ok z
integer_from _ = err Error.type_error

abbrev number_from : Plain → Result Number
number_from (num n) = ok n
number_from _ = err Error.type_error

abbrev text_or_null_from : Plain → Result (Option String)
text_or_null_from null = ok none
text_or_null_from (str s) = ok (some s)
text_or_null_from _ = err Error.type_error

-- A missing argument of `ProcessEnd(**...)`.
abbrev argument : String → Fields → Result Plain
argument k fs = elim (get_field k fs) [ none ↦ err Error.type_error | some v ↦ ok v ]

-- `ProcessEnd(**record['ended'])`: each of the eight names and no other.
unfoldable pub end_from_plain : Fields → Result ProcessEnd
end_from_plain fs = do
  guard (size_fields fs == 8) Error.type_error
  returncode ← argument "returncode" fs >>= integer_from
  reason ← argument "reason" fs >>= text_from
  peak ← argument "peak_mem_bytes" fs >>= integer_from
  cpu ← argument "cpu_s" fs >>= number_from
  wall ← argument "wall_s" fs >>= number_from
  enforcer ← argument "enforcer" fs >>= text_from
  key ← argument "key" fs >>= text_from
  fingerprint ← argument "fingerprint" fs >>= text_or_null_from
  ok (record {
    returncode = returncode;
    reason = reason;
    peak_mem_bytes = peak;
    cpu_s = cpu;
    wall_s = wall;
    enforcer = enforcer;
    key = key;
    fingerprint = fingerprint;
  })

abbrev object_from : Plain → Result Fields
object_from (obj fs) = ok fs
object_from _ = err Error.type_error

abbrev read_refused : Plain → Result (Option Ended)
read_refused p = do why ← text_from p; ok (some (refused_run why))

-- `read_ended(path)`: an absent file is `none`.
unfoldable pub read_ended : Option Fields → Result (Option Ended)
unfolding end_from_plain
read_ended none = ok none
read_ended (some fs) = elim (get_field "refused" fs) [
  | some p ↦ read_refused p
  | none ↦ do
    p ← need_field "ended" fs
    inner ← object_from p
    e ← end_from_plain inner
    ok (some (ended e))
]

-- Whatever is written of how a run ended is read back: the end itself, or the refusal.
pub read-ended_to_plain : (e : Ended) → read_ended (some (ended_to_plain e)) ≡ ok (some e)
unfolding read_ended ended_to_plain get_field
read-ended_to_plain (refused_run why) = refl
read-ended_to_plain (ended e) = fingerprinted e.fingerprint
  where
    fingerprinted :
        (f : Option String)
        → read_ended (some (ended_to_plain (ended (record e { fingerprint = f }))))
          ≡ ok (some (ended (record e { fingerprint = f })))
    fingerprinted none = refl
    fingerprinted (some s) = refl

status_inj : {s t : Status} → Option.some s ≡ some t → s ≡ t
status_inj h = cc

no_status : {s : Status} → Option.none ≡ some s → ⊥
no_status h = cc

-- A status of the box's own is that of a kill, and it is retryable: never a conclusion.
pub status_of-decided :
    (e : ProcessEnd) (s : Status) → status_of e ≡ some s → (killed e ≡ true) × (decided s ≡ false)
unfolding status_of killed decided
status_of-decided e s h = elim (Bool-cases (str_eq e.reason "memory")) [
  | inl memory ↦ (
    ap (λ r. not (str_eq r "exit")) ((eq_iff e.reason "memory").0 memory),
    ap decided (sym (status_inj (rw memory at h))),
  )
  | inr other ↦ elim (Bool-cases (str_eq e.reason "wall")) [
    | inl wall ↦ (
      ap (λ r. not (str_eq r "exit")) ((eq_iff e.reason "wall").0 wall),
      ap decided (sym (status_inj (rw (other, wall) at h))),
    )
    | inr neither ↦ absurd (no_status (rw (other, neither) at h))
  ]
]
