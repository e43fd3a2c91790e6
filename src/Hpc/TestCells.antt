-- ===== src/Hpc/TestCells.antt =====
-- src/lab_commons/hpc/testcells.py: the result of one test, and `TEST_WORDS` of hpc/retired.py, whose
-- spellings stand here as their token and whether it is marked as expected, as `upgraded` takes them apart.
use lab_commons.Commons.{
  String, Bool, true, false, not, ◌&&◌, Option, none, some, List, [], ◌∷◌, map, str_eq,
  if◌then◌else◌, Result, ok, err, Error, ◌>>=◌,
}
use lab_commons.Commons.Dict.{Dict, lookup, insert}
use lab_commons.Outcomes.Status.{
  Status, ok_status, rejected, not_applicable, pending, infra, error_status, decided, status_eq,
  Evidence,
}
use lab_commons.Outcomes.Plain.{Plain, obj, Fields, end, field, get_field}
use lab_commons.Outcomes.Cell.Parts.{Cell, Reason, make_cell, make_reason, cell_eq}
use lab_commons.Outcomes.Cell.Stored.{cell_to_plain, cell_from_plain}
use lab_commons.Outcomes.Expectation.{
  Expectation, make_expectation, default_expectation, met_by, expectation_to_plain,
  expectation_from_plain,
}
use lab_commons.Outcomes.Conclusion.{Conclusion, inconclusive, of_cell, over}

pub record TestCell : Type 0 where
  pub cell : Cell
  pub expectation : Option Expectation

-- `one.met`
unfoldable pub meets : TestCell → Option Bool
unfolding met_by
meets one = elim one.expectation [
  | none ↦ met_by default_expectation one.cell.status
  | some e ↦ met_by e one.cell.status
]

-- `one.red`
unfoldable pub is_red : TestCell → Bool
unfolding meets
is_red one = elim (meets one) [ some false ↦ true | _ ↦ false ]

-- Whether `one.word()` marks the cell as expected to be rejected; the rest of the word is its status.
unfoldable pub is_expected : TestCell → Bool
unfolding status_eq
is_expected one = elim one.expectation [ none ↦ false | some e ↦ status_eq e.status rejected ]

abbrev add_field : Fields → String → Plain → Fields
add_field end k p = field k p end
add_field (field j q fs) k p = field j q (add_field fs k p)

-- `one.to_plain()`
unfoldable pub test_to_plain : TestCell → Fields
unfolding cell_to_plain expectation_to_plain
test_to_plain one = elim one.expectation [
  | none ↦ cell_to_plain one.cell
  | some e ↦ add_field (cell_to_plain one.cell) "expectation" (obj (expectation_to_plain e))
]

-- `None if expectation is None else Expectation.from_plain(expectation)`
unfoldable pub expectation_in : Option Plain → Result (Option Expectation)
expectation_in none = ok none
expectation_in (some Plain.null) = ok none
expectation_in (some (obj fs)) = do e ← expectation_from_plain fs; ok (some e)
expectation_in (some _) = err Error.type_error

-- `TestCell.from_plain(plain)`
unfoldable pub test_from_plain : Fields → Result TestCell
unfolding cell_from_plain expectation_in
test_from_plain plain = do
  c ← cell_from_plain plain
  e ← expectation_in (get_field "expectation" plain)
  ok (record { cell = c; expectation = e })

abbrev is_pass : Conclusion → Bool
is_pass Conclusion.pass = true
is_pass _ = false

abbrev is_any {ℓ} : {A : Type ℓ} → List A → Bool
is_any [] = false
is_any (x ∷ xs) = true

-- `conclude(cells, flaky)`
unfoldable pub conclude : List TestCell → List String → Conclusion
unfolding over
conclude cells flaky =
    let told = over (map (λ (one : TestCell). (of_cell one.cell, one.expectation)) cells) in
    if is_any flaky && is_pass told then inconclusive else told

-- What `merged` holds: the cell of each id, and the ids decided both ways.
pub record Merged : Type 0 where
  pub cells : Dict TestCell
  pub flaky : List String

-- One turn of the inner loop of `merged`.
unfoldable pub merge_one : Merged → String × TestCell → Merged
unfolding decided
merge_one m (node, one) = elim (lookup node m.cells) [
  | none ↦ record m { cells = insert node one m.cells }
  | some held ↦
      if not (decided held.cell.status)
      then record m { cells = insert node one m.cells }
      else if decided one.cell.status && not (cell_eq one.cell held.cell)
      then record m { flaky = node ∷ m.flaky }
      else m
]

unfoldable pub merge_source : Merged → Dict TestCell → Merged
unfolding merge_one
merge_source m [] = m
merge_source m (i ∷ source) = merge_source (merge_one m i) source

-- `merged(sources)` from what is held so far on; a set is the list of its additions.
unfoldable pub merge_into : Merged → List (Dict TestCell) → Merged
unfolding merge_source
merge_into m [] = m
merge_into m (source ∷ sources) = merge_into (merge_source m source) sources

unfoldable pub merged : List (Dict TestCell) → Merged
unfolding merge_into
merged = merge_into (record { cells = []; flaky = [] })

-- What `TEST_WORDS` says of a word: the status, whether it is marked as expected, and the kind of its reason.
pub record Reads : Type 0 where
  pub status : Status
  pub expected : Bool
  pub kind : String

-- `TEST_WORDS[word]`: no word, a handed id, or a reading.
pub data Word : Type 0 where
  unknown handed : Word
  reads : Reads → Word

abbrev says : Status → Bool → String → Word
says s e k = reads (record { status = s; expected = e; kind = k })

unfoldable pub test_word : String → Word
test_word word =
    if str_eq word "passed"
    then says ok_status false ""
    else if str_eq word "failed"
    then says rejected false "assertion"
    else if str_eq word "error"
    then says error_status false "error"
    else if str_eq word "skipped"
    then says not_applicable false "skipped"
    else if str_eq word "xfailed"
    then says rejected true "expected"
    else if str_eq word "lost"
    then says infra false "lost"
    else if str_eq word "missing"
    then says pending false ""
    else if str_eq word "not-covered"
    then handed
    else unknown

abbrev reason_of : String → String → Result (Option Reason)
reason_of kind why = if str_eq kind "" then ok none else (do r ← make_reason kind why; ok (some r))

abbrev expected_of : Bool → String → Result (Option Expectation)
expected_of false why = ok none
expected_of true why = do
  e ← make_expectation rejected (if str_eq why "" then "xfail" else why)
  ok (some e)

-- `upgraded(word, why)`
unfoldable pub upgraded : String → String → Result (Option TestCell)
unfolding test_word make_reason make_expectation make_cell
upgraded word why = elim (test_word word) [
  | unknown ↦ err Error.value_error
  | handed ↦ ok none
  | reads r ↦ do
    expectation ← expected_of r.expected why
    reason ← reason_of r.kind why
    c ← make_cell r.status [] reason Evidence.observed none
    ok (some (record { cell = c; expectation = expectation }))
]
