-- ===== src/Hpc/Plan/Landed.antt =====
-- `allocate` (src/lab_commons/hpc/plan.py) and `span` (hpc/span.py): whose grants a batch lands on.
use lab_commons.Commons.{
  ℕ, suc, ◌≡◌, subst, Bool, true, false, Option, none, some, List, [], ◌∷◌, map, ltb, leb, ◌==◌,
  length, All, if◌then◌else◌, Result, ok, err, >>=-eq-ok, ok_inj, inl, inr, Bool-cases,
}
use lab_commons.Hpc.Shards.{Range, sum}
use lab_commons.Hpc.Plan.Quota.{Snapshot}
use lab_commons.Hpc.Plan.Make.{Plan}
use lab_commons.Hpc.Plan.Session.{session_room}
use lab_commons.Hpc.Plan.Grant.{
  Grant, Batch, Candidates, snapshots_of, plan_for, is_placed, Choosable, option_of, add_option,
  options_of, allocate,
}
use lab_commons.Hpc.Plan.Span.{
  Placement, Able, add_able, able_of, slice, add_slice, slices_of, spread_or, split, span,
  throttles, slowest_of, is_over_cap,
}
use lab_commons.Hpc.Plan.Chosen.{choose_of-All}

-- What holds of the grants of all candidates holds of the placements' grants.
module _ (P : Grant → Type 0) (b : Batch) where
  abbrev pub Of : Grant × Snapshot → Type 0
  Of c = P c.0

  abbrev pub On : Placement → Type 0
  On p = P p.grant

  add_option-from :
      (cap : Option ℕ) (snapshots : List Snapshot) (order : ℕ) (g : Grant) (s : Snapshot)
      (made : Result Plan) (rest : List Choosable × Bool)
      → P g
      → All (λ (o : Choosable). P o.grant) rest.0
      → All (λ (o : Choosable). P o.grant) (add_option b cap snapshots order g s made rest).0
  unfolding add_option option_of
  add_option-from cap snapshots order g s (err why) (options, roomless) p all = all
  add_option-from cap snapshots order g s (ok plan) (options, roomless) p all =
      elim (Bool-cases (is_placed b.paging order plan.minutes b.cost snapshots b.rerun_safe)) [
        | inl e ↦ rw (e, All) (p, all)
        | inr e ↦ rw (e, All) all
      ]

  options-from :
      (cap : Option ℕ) (snapshots : List Snapshot) (order : ℕ) (candidates : Candidates)
      → All Of candidates
      → All (λ (o : Choosable). P o.grant) (options_of b cap snapshots order candidates).0
  unfolding options_of
  options-from cap snapshots order [] all = tt
  options-from cap snapshots order ((g, s) ∷ candidates) (p, all) =
      add_option-from cap snapshots order g s (plan_for b g s)
        (options_of b cap snapshots (suc order) candidates) p
        (options-from cap snapshots (suc order) candidates all)

  allocate-from :
      (candidates : Candidates) {o : Choosable}
      → All Of candidates
      → allocate b candidates ≡ ok o
      → P o.grant
  unfolding allocate
  allocate-from candidates all h =
      let snapshots = snapshots_of candidates in
      let (cap, e, rest) = >>=-eq-ok (session_room b.session snapshots b.cost) _ h in
      choose_of-All (λ o. P o.grant) _ (options_of b cap snapshots 0 candidates).0
        (options-from cap snapshots 0 candidates all) rest

  add_able-from :
      (snapshots : List Snapshot) (index : ℕ) (g : Grant) (s : Snapshot) (made : Result Plan)
      (rest : List Able)
      → P g
      → All (λ (a : Able). P a.grant) rest
      → All (λ (a : Able). P a.grant) (add_able b snapshots index g s made rest)
  unfolding add_able
  add_able-from snapshots index g s (err why) rest p all = all
  add_able-from snapshots index g s (ok whole) rest p all =
      elim (Bool-cases (is_placed b.paging index whole.minutes b.cost snapshots b.rerun_safe)) [
        | inl e ↦ rw (e, All) (p, all)
        | inr e ↦ rw (e, All) all
      ]

  able-from :
      (snapshots : List Snapshot) (index : ℕ) (candidates : Candidates)
      → All Of candidates
      → All (λ (a : Able). P a.grant) (able_of b snapshots index candidates)
  unfolding able_of
  able-from snapshots index [] all = tt
  able-from snapshots index ((g, s) ∷ candidates) (p, all) =
      add_able-from snapshots index g s (plan_for b g s)
        (able_of b snapshots (suc index) candidates) p
        (able-from snapshots (suc index) candidates all)

  -- All placements that there are.
  abbrev AllOn : Option (List Placement) → Type 0
  AllOn none = Unit
  AllOn (some placements) = All On placements

  add_slice-from :
      (a : Able) (r : Range) (made : Result Plan) (rest : Option (List Placement))
      → P a.grant
      → AllOn rest
      → AllOn (add_slice a r made rest)
  unfolding add_slice
  add_slice-from a r (err why) rest p all = tt
  add_slice-from a r (ok part) none p all = tt
  add_slice-from a r (ok part) (some placements) p all = (p, all)

  slices-from :
      (able : List Able) (ranges : List Range)
      → All (λ (a : Able). P a.grant) able
      → AllOn (slices_of b able ranges)
  unfolding slices_of
  slices-from [] ranges all = tt
  slices-from (a ∷ able) [] all = tt
  slices-from (a ∷ able) ((i, j) ∷ ranges) (p, all) =
      let rest = slices-from able ranges all in
      elim (Bool-cases (i == j)) [
        | inl e ↦ rw (e, AllOn) rest
        | inr e ↦
            rw (e, AllOn)
              (elim (Bool-cases (ltb (b.policy.pad (sum (slice b.seconds (i, j)))) b.policy.low)) [
                | inl short ↦ rw (short, AllOn) tt
                | inr enough ↦ rw (enough, AllOn) (add_slice-from a (i, j) _ _ p rest)
              ])
      ]

  spread_or-from :
      (cap : Option ℕ) (plan : Plan) (alone : List Placement) (spread : Option (List Placement))
      → All On alone
      → AllOn spread
      → All On (spread_or cap plan alone spread)
  unfolding spread_or
  spread_or-from cap plan alone none h all = h
  spread_or-from cap plan alone (some placements) h all =
      either (is_over_cap cap (throttles placements)) alone _ h
        (either (ltb (slowest_of placements) plan.makespan) placements alone all h)
    where
      either :
          (t : Bool) (xs ys : List Placement)
          → All On xs
          → All On ys
          → All On (if t then xs else ys)
      either true xs ys k l = k
      either false xs ys k l = l

  pub span-from :
      (candidates : Candidates) {placements : List Placement}
      → All Of candidates
      → span b candidates ≡ ok placements
      → All On placements
  unfolding span
  span-from candidates all h =
      let snapshots = snapshots_of candidates in
      let (best, e, rest) = >>=-eq-ok (allocate b candidates) _ h in
      let (cap, f, end) = >>=-eq-ok (session_room b.session snapshots b.cost) _ rest in
      let able = able_of b snapshots 0 candidates in
      let alone =
        record { grant = best.grant; plan = best.plan; items = (0, length b.seconds) } ∷ [] in
      let one : All On alone = (allocate-from candidates all e, tt) in
      subst (All On) (ok_inj end) (
        few_or cap best.plan alone one able
          (slices_of b able (split b.policy.share b.seconds (map (λ (a : Able). a.rate) able)))
          (slices-from able _ (able-from snapshots 0 candidates all)))
    where
      few_or :
          (cap : Option ℕ) (plan : Plan) (alone : List Placement)
          → All On alone
          → (able : List Able) (spread : Option (List Placement)) → AllOn spread
          → All On (if leb (length able) 1 then alone else spread_or cap plan alone spread)
      few_or cap plan alone one able spread more = elim (Bool-cases (leb (length able) 1)) [
        | inl few ↦ rw (few, All) one
        | inr many ↦ rw (many, All) (spread_or-from cap plan alone spread one more)
      ]
