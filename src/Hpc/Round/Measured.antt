-- ===== src/Hpc/Round/Measured.antt =====
-- src/lab_commons/compute/measured.py: the facts, and what an item's stream and a kill teach them. Times are
-- in milliseconds, memory in one unit; `share a n` is the quotient of floats `a / n` in the unit, to which
-- `round` brings what is kept (a mean is taken in the unit too, which the code rounds in the sum only).
use lab_commons.Commons.{
  ℕ, ◌+◌, ◌-◌, ◌*◌, String, Bool, true, false, not, ◌||◌, Option, none, some, List, [], ◌∷◌, map,
  min, max, str_eq, leb, ltb, length, sum_of, keep, if◌then◌else◌,
}
use lab_commons.Commons.Dict.{Dict, elem, lookup, insert, default, keys}
use lab_commons.Hpc.Round.Stream.{Done, Folded, is_signalled}

pub record Measured : Type 0 where
  pub durations : Dict ℕ
  pub floors : Dict ℕ
  pub overheads : Dict ℕ
  pub peaks : Dict ℕ
  pub id_peaks : Dict ℕ
  pub round : List String
  pub taught : List String

-- `OOM_GROWTH` and `TIMEOUT_GROWTH`
abbrev pub oom_growth : ℕ
oom_growth = 2

abbrev pub timeout_growth : ℕ
timeout_growth = 2

is_cut : String → Bool
is_cut (String.◌∷◌ a (String.◌∷◌ b s)) = str_eq (String.◌∷◌ a (String.◌∷◌ b String.[])) "::"
is_cut _ = false

-- `file_of(node)`: the text before the first `::`.
unfoldable pub file_of : String → String
unfolding is_cut
file_of String.[] = String.[]
file_of (String.◌∷◌ c s) =
    let rest = file_of s in if is_cut (String.◌∷◌ c s) then String.[] else String.◌∷◌ c rest

-- `list(dict.fromkeys(names))`
unfoldable pub distinct : List String → List String
distinct [] = []
distinct (n ∷ ns) = n ∷ keep (λ m. not (str_eq n m)) (distinct ns)

-- `d.pop(key, None)`
unfoldable pub remove : String → Dict ℕ → Dict ℕ
remove k d = keep (λ i. not (str_eq i.0 k)) d

unfoldable pub remove_all : List String → Dict ℕ → Dict ℕ
unfolding remove
remove_all [] d = d
remove_all (k ∷ ks) d = remove_all ks (remove k d)

-- `d.update(e)`, for `e` a dictionary.
unfoldable pub update : Dict ℕ → Dict ℕ → Dict ℕ
update d [] = d
update d ((k, n) ∷ e) = update (insert k n d) e

-- `max(d.get(key, 0.0), n)` under the key.
unfoldable pub raise_to : String → ℕ → Dict ℕ → Dict ℕ
raise_to k n d = insert k (max (default 0 (lookup k d)) n) d

-- `self._killed_peak(ids, folded, files, need)`: first the one file, then the id that was cut.
abbrev file_peak : List String → ℕ → Measured → Measured
file_peak (name ∷ []) need m = record m {
  peaks = raise_to name need m.peaks;
  round = name ∷ m.round;
  taught = name ∷ m.taught;
}
file_peak _ need m = m

-- `[n for n in ids if n not in cells]`
abbrev pub unreported : List String → Folded → List String
unreported ids folded = keep (λ n. not (elem n (keys folded.cells))) ids

abbrev cut_peak : List String → ℕ → Measured → Measured
cut_peak [] need m = m
cut_peak (cut ∷ rest) need m = record m {
  id_peaks = raise_to cut need m.id_peaks;
  taught = cut ∷ m.taught;
}

unfoldable pub killed_peak : List String → Folded → List String → ℕ → Measured → Measured
unfolding raise_to
killed_peak ids folded files need m = cut_peak (unreported ids folded) need (file_peak files need m)

abbrev put_all : List String → ℕ → Dict ℕ → Dict ℕ
put_all [] n d = d
put_all (k ∷ ks) n d = put_all ks n (insert k n d)

-- The loop over the files of an item that closed by itself: its peak, no lower than what this round read.
unfoldable pub learn_peaks : List String → ℕ → Measured → Measured
learn_peaks [] peak m = m
learn_peaks (name ∷ names) peak m =
    let floor = if elem name m.round then default 0 (lookup name m.peaks) else 0 in
    learn_peaks names peak
      (record m { peaks = insert name (max floor peak) m.peaks; round = name ∷ m.round })

-- What the closing record of an item of these ids teaches.
unfoldable pub learn_done :
    (ℕ → ℕ → ℕ) → List String → Folded → Option ℕ → Done → Measured → Measured
unfolding distinct killed_peak learn_peaks
learn_done share ids folded allowed done m =
    let files = distinct (map file_of ids) in
    let tests = sum_of (λ (i : String × ℕ). i.1) folded.seconds in
    let known = max (default 0 done.peak) (default 0 allowed) in
    if is_signalled (some done)
    then (if ltb 0 known then killed_peak ids folded files (known * oom_growth) m else m)
    else (let paid = record m {
      overheads = put_all files (share (done.wall - tests) (length files)) m.overheads;
    } in
        elim done.peak [ none ↦ paid | some peak ↦ learn_peaks files peak paid ])

abbrev is_empty {ℓ} : {A : Type ℓ} → List A → Bool
is_empty [] = true
is_empty (x ∷ xs) = false

-- `self.learn(ids, folded, allowed_mb=allowed)`
unfoldable pub learn : (ℕ → ℕ → ℕ) → List String → Folded → Option ℕ → Measured → Measured
unfolding update remove_all learn_done
learn share ids folded allowed m =
    let timed = record m {
      durations = update m.durations folded.seconds;
      floors = remove_all (keys folded.seconds) m.floors;
      id_peaks = remove_all (keys folded.seconds) m.id_peaks;
    } in
    elim folded.closed [
      | none ↦ timed
      | some done ↦ if is_empty ids then timed else learn_done share ids folded allowed done timed
    ]

-- `_mean` of the durations of a file's ids.
unfoldable pub mean_of : (ℕ → ℕ → ℕ) → String → Dict ℕ → ℕ
unfolding file_of
mean_of share name durations =
    let mates = keep (λ (i : String × ℕ). str_eq (file_of i.0) name) durations in
    if is_empty mates then 0 else share (sum_of (λ (i : String × ℕ). i.1) mates) (length mates)

-- What an id is priced at: its duration, else its file's mean, and no less than its floor.
unfoldable pub price : (ℕ → ℕ → ℕ) → Measured → String → ℕ
unfolding mean_of file_of
price share m node =
    max (default (mean_of share (file_of node) m.durations) (lookup node m.durations))
      (default 0 (lookup node m.floors))

abbrev raise_floors : (ℕ → ℕ → ℕ) → Measured → ℕ → ℕ → List String → Dict ℕ → Dict ℕ
raise_floors share m short n [] floors = floors
raise_floors share m short n (node ∷ nodes) floors =
    raise_floors share m short n nodes (insert node (price share m node + share short n) floors)

-- `self._outgrow(rest, target)`
unfoldable pub outgrow : (ℕ → ℕ → ℕ) → List String → ℕ → Measured → Measured
unfolding price
outgrow share rest target m =
    let short = target - sum_of (price share m) (distinct rest) in
    if ltb 0 short
    then record m { floors = raise_floors share m short (length rest) (distinct rest) m.floors }
    else m

abbrev held_to : Option ℕ → ℕ → ℕ
held_to none n = n
held_to (some top) n = min n top

-- `self.killed(ids, folded, spent, timed_out=timed_out, top=top)`
unfoldable pub killed :
    (ℕ → ℕ → ℕ) → List String → Folded → ℕ → Bool → Option ℕ → Measured → Measured
unfolding raise_to outgrow distinct
killed share ids folded spent timed_out top m = elim (unreported ids folded) [
  | [] ↦ m
  | cut ∷ rest ↦
      let files = distinct (map file_of ids) in
      let explained =
        sum_of (λ (i : String × ℕ). i.1) folded.seconds
        + sum_of (λ f. default 0 (lookup f m.overheads)) files in
      let grown = if timed_out || is_signalled folded.closed then timeout_growth else 1 in
      let floor = held_to top ((spent - explained) * grown) in
      let floored = if ltb 0 floor then record m { floors = raise_to cut floor m.floors } else m in
      if leb spent 0
      then m
      else if timed_out
      then outgrow share (cut ∷ rest) (held_to top (spent * timeout_growth)) floored
      else floored
]
