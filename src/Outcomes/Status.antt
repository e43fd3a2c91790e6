-- ===== src/Outcomes/Status.antt =====
-- src/lab_commons/outcomes/status.py: the two families, the twelve statuses, the evidence order.
pub mod Tokens
use lab_commons.Commons.{
  ℕ, String, ◌≡◌, Bool, true, false, Option, none, some, List, [], ◌∷◌, ◌++◌, map, arith, str_eq,
  leb, ◌-◌, ◌==◌, ◌&&◌, if◌then◌else◌, Result, ok, err, value_error,
}
use lab_commons.Commons.Text.{codes}

pub data Family : Type 0 where
  decided_family retryable_family : Family

pub data Status : Type 0 where
  ok_status rejected not_applicable pending screened partial : Status
  timeout out_of_memory unavailable nonconverged infra error_status : Status

-- `_DECIDED` is the one place where the partition is stated.
unfoldable pub family : Status → Family
family ok_status = decided_family
family rejected = decided_family
family not_applicable = decided_family
family _ = retryable_family

unfoldable pub decided : Status → Bool
unfolding family
decided s = elim (family s) [ decided_family ↦ true | retryable_family ↦ false ]

-- `status.value`
unfoldable pub value : Status → String
value ok_status = "ok"
value rejected = "rejected"
value not_applicable = "not_applicable"
value pending = "pending"
value screened = "screened"
value partial = "partial"
value timeout = "timeout"
value out_of_memory = "out_of_memory"
value unavailable = "unavailable"
value nonconverged = "nonconverged"
value infra = "infra"
value error_status = "error"

abbrev pub all_statuses : List Status
all_statuses =
    ok_status ∷ rejected ∷ not_applicable ∷ pending ∷ screened ∷ partial ∷ timeout ∷ out_of_memory
    ∷ unavailable ∷ nonconverged ∷ infra ∷ error_status ∷ []

-- The first member with this spelling.
abbrev find_status : String → List Status → Result Status
find_status token [] = err value_error
find_status token (s ∷ rest) = if str_eq (value s) token then ok s else find_status token rest

-- `Status(token)`
unfoldable pub parse_status : String → Result Status
unfolding value
parse_status token = find_status token all_statuses

-- `a is b`: the members of an `enum.Enum` are told apart by their values.
unfoldable pub status_eq : Status → Status → Bool
status_eq a b = str_eq (value a) (value b)

pub data Evidence : Type 0 where
  predicted observed validated certified : Evidence

-- `IntEnum`: the ordinal, which orders the members.
unfoldable pub ordinal : Evidence → ℕ
ordinal predicted = 1
ordinal observed = 2
ordinal validated = 3
ordinal certified = 4

-- The member's name.
unfoldable pub evidence_name : Evidence → String
evidence_name predicted = "PREDICTED"
evidence_name observed = "OBSERVED"
evidence_name validated = "VALIDATED"
evidence_name certified = "CERTIFIED"

-- `evidence.token`: the name in lower case.
unfoldable pub token : Evidence → String
token predicted = "predicted"
token observed = "observed"
token validated = "validated"
token certified = "certified"

-- `str.upper` of one code point, as far as it can make a letter of one of the four names: of the
-- characters outside ASCII only U+0131, U+017F and the ligature U+FB01 have such an upper case.
-- All others are left as they are, which is not their upper case, and is no letter A to Z either.
unfoldable pub upper_code : ℕ → List ℕ
upper_code c =
    if leb b'a' c && leb c b'z'
    then (c - 32) ∷ []
    else if c == 0x131
    then b'I' ∷ []
    else if c == 0x17f
    then b'S' ∷ []
    else if c == 0xfb01
    then b'F' ∷ b'I' ∷ []
    else c ∷ []

abbrev upper : List ℕ → List ℕ
upper [] = []
upper (c ∷ cs) = upper_code c ++ upper cs

abbrev codes_eq : List ℕ → List ℕ → Bool
codes_eq [] [] = true
codes_eq (a ∷ as') (b ∷ bs) = a == b && codes_eq as' bs
codes_eq _ _ = false

-- `Evidence.parse(token)`: the look-up by upper-cased name, whose `KeyError` becomes `ValueError`.
unfoldable pub parse_evidence : String → Result Evidence
unfolding upper_code evidence_name
parse_evidence spelled =
    let named = upper (codes spelled) in
    if codes_eq named (codes (evidence_name predicted))
    then ok predicted
    else if codes_eq named (codes (evidence_name observed))
    then ok observed
    else if codes_eq named (codes (evidence_name validated))
    then ok validated
    else if codes_eq named (codes (evidence_name certified))
    then ok certified
    else err value_error
