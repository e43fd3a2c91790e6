-- ===== src/Hpc/Round/Dropped.antt =====
-- `regrown`, the end of `grown_after` of src/lab_commons/hpc/gather.py, id by id.
use lab_commons.Commons.{
  ℕ, ◌*◌, String, ◌≡◌, refl, ◌∙◌, Bool, false, not, ◌||◌, Option, none, some, List, [], ◌∷◌, ◌++◌,
  str_eq, eq_iff, keep, if◌then◌else◌, arith,
}
use lab_commons.Commons.Dict.{Dict, elem, lookup, insert, default, lookup-insert}
use lab_commons.Hpc.Round.Measured.{oom_growth, distinct, remove, remove_all}
use lab_commons.Hpc.Round.Covers.{elem-keep}
use lab_commons.Hpc.Round.Growth.{Marks, is_known, grow_all, regrown}

lookup-remove :
    (k j : String) (d : Dict ℕ) → lookup k (remove j d) ≡ (if str_eq j k then none else lookup k d)
unfolding lookup remove
lookup-remove k j [] = ground arith
lookup-remove k j ((i, n) ∷ d) =
    ground (arith, lookup-remove k j d, eq_iff i j, eq_iff i k, eq_iff j k)

lookup-remove_all :
    (k : String) (ks : List String) (d : Dict ℕ)
    → lookup k (remove_all ks d) ≡ (if elem k ks then none else lookup k d)
unfolding remove_all
lookup-remove_all k [] d = refl
lookup-remove_all k (j ∷ ks) d =
    ground (arith, lookup-remove_all k ks (remove j d), lookup-remove k j d, eq_iff j k)

abbrev IsNodup : List String → Type 0
IsNodup [] = Unit
IsNodup (n ∷ ns) = (elem n ns ≡ false) × IsNodup ns

keep-IsNodup : (p : String → Bool) (ns : List String) → IsNodup ns → IsNodup (keep p ns)
keep-IsNodup p [] h = tt
keep-IsNodup p (n ∷ ns) h = ground (arith, keep-IsNodup p ns h.1, elem-keep p n ns)

distinct-IsNodup : (ns : List String) → IsNodup (distinct ns)
unfolding distinct
distinct-IsNodup [] = tt
distinct-IsNodup (n ∷ ns) = (
  elem-keep (λ m. not (str_eq n m)) n (distinct ns) ∙ ground (arith, eq_iff n n),
  keep-IsNodup (λ m. not (str_eq n m)) (distinct ns) (distinct-IsNodup ns),
)

elem-distinct : (k : String) (ns : List String) → elem k (distinct ns) ≡ elem k ns
unfolding distinct
elem-distinct k [] = refl
elem-distinct k (n ∷ ns) =
    ground
      (arith, elem-keep (λ m. not (str_eq n m)) k (distinct ns), elem-distinct k ns, eq_iff n k)

abbrev doubled : String → Dict ℕ → Option ℕ
doubled k d = some (default 1 (lookup k d) * oom_growth)

lookup-grow_all :
    (k : String) (ns : List String) (d : Dict ℕ)
    → IsNodup ns
    → lookup k (grow_all ns d) ≡ (if elem k ns then doubled k d else lookup k d)
unfolding grow_all
lookup-grow_all k [] d h = refl
lookup-grow_all k (n ∷ ns) d h =
    let grown = default 1 (lookup n d) * oom_growth in
    ground
      (arith, lookup-grow_all k ns (insert n grown d) h.1, lookup-insert n k grown d, eq_iff n k)

pub elem-append : (k : String) (js ks : List String) → elem k (js ++ ks) ≡ (elem k js || elem k ks)
elem-append k [] ks = refl
elem-append k (j ∷ js) ks = ground (arith, elem-append k js ks)

-- What a growth is after a round, for an id that was cut, or finished, or neither.
abbrev pub growth_of : Bool → Bool → Bool → Option ℕ → Option ℕ
growth_of was_cut finished known grown =
    if was_cut
    then (if known then none else some (default 1 grown * oom_growth))
    else if finished
    then none
    else grown

pub regrown_lem :
    (taught : List String) (m : Marks) (grown : Dict ℕ) (k : String)
    → lookup k (regrown taught m grown)
      ≡ growth_of (elem k m.cut) (elem k m.finished) (is_known taught k) (lookup k grown)
unfolding regrown
regrown_lem taught m grown k =
    let known = keep (is_known taught) m.cut in
    let ended = keep (λ n. not (elem n m.cut)) m.finished in
    let growing = keep (λ n. not (elem n known)) m.cut in
    let kept = remove_all (ended ++ known) grown in
    ground (
      arith,
      lookup-grow_all k (distinct growing) kept (distinct-IsNodup growing),
      elem-distinct k growing,
      elem-keep (λ n. not (elem n known)) k m.cut,
      elem-keep (is_known taught) k m.cut,
      lookup-remove_all k (ended ++ known) grown,
      elem-append k ended known,
      elem-keep (λ n. not (elem n m.cut)) k m.finished,
    )
