-- ===== src/Compute/Rule.antt =====
-- The rule of src/lab_commons/compute/admission.py, name by name.
use lab_commons.Commons.{
  ℕ, ◌-◌, ◌≤◌, ◌<◌, String, ◌≡◌, refl, sym, ap, ◌∙◌, Bool, true, false, not, ◌&&◌, ◌||◌, List, [],
  ◌∷◌, ◌↔◌, ◌≢◌, inl, inr, arith, eq_refl, ltb→lt, subst, ◌⊎◌, sum_of, ok, all, &&-intro,
}
use lab_commons.Commons.Dict.{Dict, elem, keys}
use lab_commons.Compute.Resources.{
  Resources, amount, of_amounts, union, minus, sub, sorted, short_of, le, total,
}
use lab_commons.Compute.Vectors.{
  elem-union, amount-sub, amount-total, elem-sorted, elem-keep, elem-short_of, le_iff,
}
use lab_commons.Compute.Admission.{
  Supply, present, make_supply, Job, Admission, fit, refuse_missing, admit, counted_supply,
  or_names,
}

-- What is free of a name: the supply less what runs, or nothing.
abbrev pub free_of : String → Supply → List (Dict ℕ) → ℕ
free_of k supply running = amount k supply.resources - sum_of (amount k) running

amount-free :
    (k : String) (s : Supply) (running : List (Dict ℕ))
    → amount k (sub s.resources (total running)) ≡ free_of k s running
amount-free k s running = amount-sub k s.resources (total running) ∙ rw (amount-total k running)

abbrev missing : Job → Supply → List String
missing job s = sorted (minus job.needs (present s))

elem-missing :
    (k : String) (job : Job) (s : Supply)
    → elem k (missing job s) ≡ (elem k job.needs && not (elem k (present s)))
elem-missing k job s =
    elem-sorted k (minus job.needs (present s))
    ∙ elem-keep (λ j. not (elem j (present s))) k job.needs

abbrev pub HasNeeds : Job → Supply → Type 0
HasNeeds job s = (k : String) → elem k job.needs ≡ true → elem k (present s) ≡ true

abbrev pub Fits : Dict ℕ → Supply → List (Dict ℕ) → Type 0
Fits demand s running = (k : String) → amount k (of_amounts demand) ≤ free_of k s running

fit-admitted : (want free : Resources) → (fit want free).admitted ≡ le want free
unfolding fit
fit-admitted want free = ground arith

fit_iff :
    (demand : Dict ℕ) (s : Supply) (running : List (Dict ℕ))
    → ((fit (of_amounts demand) (sub s.resources (total running))).admitted ≡ true)
      ↔ Fits demand s running
fit_iff demand s running = (
  λ h k.
      rw (amount-free k s running) at ((le_iff want free).0 (sym (fit-admitted want free) ∙ h) k),
  λ h. fit-admitted want free ∙ (le_iff want free).1 (λ k. rw (amount-free k s running) (h k)),
)
  where
    want : Resources
    want = of_amounts demand

    free : Resources
    free = sub s.resources (total running)

none_missing :
    (job : Job) (s : Supply) (l : List String)
    → ((k : String) → elem k l ≡ (elem k job.needs && not (elem k (present s))))
    → HasNeeds job s
    → l ≡ []
none_missing job s [] h n = refl
none_missing job s (j ∷ l) h n = ground (arith, h j, eq_refl j, n j)

-- THE RULE: a job is admitted exactly when every name it needs is present and, in every name, its
-- demand fits in the supply less what runs.
pub admit_iff :
    (job : Job) (demand : Dict ℕ) (s : Supply) (running : List (Dict ℕ))
    → ((admit job demand s running).admitted ≡ true) ↔ (HasNeeds job s × Fits demand s running)
unfolding admit
admit_iff job demand s running = (
  λ h. split (missing job s) (λ k. elem-missing k job s) h,
  λ (n, f).
      rw (none_missing job s (missing job s) (λ k. elem-missing k job s) n)
        ((fit_iff demand s running).1 f),
)
  where
    verdict : Admission
    verdict = fit (of_amounts demand) (sub s.resources (total running))

    split :
        (l : List String)
        → ((k : String) → elem k l ≡ (elem k job.needs && not (elem k (present s))))
        → (refuse_missing l verdict).admitted ≡ true
        → HasNeeds job s × Fits demand s running
    split [] m h = (λ k e. ground (arith, m k), (fit_iff demand s running).0 h)
    split (j ∷ l) m h = cc

fit-lacking :
    (want free : Resources)
    → (fit want free).admitted ≡ false
    → ((fit want free).lacking ≢ []) × ((fit want free).lacking ≡ short_of want free)
unfolding fit le
fit-lacking want free h = refused (short_of want free) refl h
  where
    refused :
        (l : List String)
        → short_of want free ≡ l
        → (fit want free).admitted ≡ false
        → ((fit want free).lacking ≢ []) × ((fit want free).lacking ≡ short_of want free)
    refused [] e q = ground arith
    refused (j ∷ l) e q = ground arith

-- A refusal is never bare: it names at least one resource, and each that it names is a needed name
-- that is not present, or one of which more is asked than is free.
pub admit-lacking :
    (job : Job) (demand : Dict ℕ) (s : Supply) (running : List (Dict ℕ))
    → (admit job demand s running).admitted ≡ false
    → ((admit job demand s running).lacking ≢ [])
      × ((k : String)
          → elem k (admit job demand s running).lacking ≡ true
          → (elem k job.needs ≡ true) × (elem k (present s) ≡ false)
            ⊎ (free_of k s running < amount k (of_amounts demand)))
unfolding admit
admit-lacking job demand s running = split (missing job s) (λ k. elem-missing k job s)
  where
    want : Resources
    want = of_amounts demand

    free : Resources
    free = sub s.resources (total running)

    verdict : List String → Admission
    verdict l = refuse_missing l (fit want free)

    split :
        (l : List String)
        → ((k : String) → elem k l ≡ (elem k job.needs && not (elem k (present s))))
        → (verdict l).admitted ≡ false
        → ((verdict l).lacking ≢ [])
          × ((k : String)
              → elem k (verdict l).lacking ≡ true
              → (elem k job.needs ≡ true) × (elem k (present s) ≡ false)
                ⊎ (free_of k s running < amount k want))
    split [] m h =
        let (some_name, named) = fit-lacking want free h in
        (
          some_name,
          λ k e. inr (
              subst (λ (n : ℕ). n < amount k want) (amount-free k s running)
                (ltb→lt (amount k free) (amount k want)
                  (sym (elem-short_of k want free) ∙ sym (ap (elem k) named) ∙ e))),
        )
    split (j ∷ l) m h = (λ q. cc, λ k e. inl (ground (arith, m k)))

-- A missing tool is named before any shortfall: when a needed name is absent, the names lacking are
-- exactly the needed names that are absent, whatever the amounts are.
pub admit_missing_first :
    (job : Job) (demand : Dict ℕ) (s : Supply) (running : List (Dict ℕ)) (k : String)
    → elem k job.needs ≡ true
    → elem k (present s) ≡ false
    → ((admit job demand s running).admitted ≡ false)
      × ((j : String)
          → elem j (admit job demand s running).lacking
            ≡ (elem j job.needs && not (elem j (present s))))
unfolding admit
admit_missing_first job demand s running k hn hp = split (missing job s) (λ j. elem-missing j job s)
  where
    verdict : List String → Admission
    verdict l = refuse_missing l (fit (of_amounts demand) (sub s.resources (total running)))

    split :
        (l : List String)
        → ((j : String) → elem j l ≡ (elem j job.needs && not (elem j (present s))))
        → ((verdict l).admitted ≡ false)
          × ((j : String)
              → elem j (verdict l).lacking ≡ (elem j job.needs && not (elem j (present s))))
    split [] m = ground (arith, m k)
    split (i ∷ l) m = (refl, m)

all-elem :
    (p : String → Bool) (ks : List String)
    → ((k : String) → elem k ks ≡ true → p k ≡ true)
    → all p ks ≡ true
all-elem p [] h = refl
all-elem p (j ∷ ks) h =
    &&-intro (p j) (all p ks) (h j (rw (eq_refl j)))
      (all-elem p ks (λ k e. h k (ground (arith, e))))

counted_names :
    (names listed union_names : List String) (k : String)
    → elem k union_names ≡ (elem k names || elem k listed)
    → elem k names ≡ true
    → elem k (or_names union_names names) ≡ true
counted_names names listed [] k h e = e
counted_names names listed (j ∷ js) k h e = ground arith

-- The supply that `admits` builds passes the check of `Supply`: every counted name is present.
pub admits_checked :
    (free : Dict ℕ) (listed : List String)
    → make_supply "" (of_amounts free) (union (keys (of_amounts free)) listed)
      ≡ ok (counted_supply free listed)
unfolding make_supply counted_supply
admits_checked free listed =
    let names = keys (of_amounts free) in
    rw (
      all-elem (λ k. elem k (or_names (union names listed) names)) names
        (λ k e. counted_names names listed (union names listed) k (elem-union k names listed) e))
