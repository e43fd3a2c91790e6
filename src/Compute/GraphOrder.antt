-- ===== src/Compute/GraphOrder.antt =====
-- `Graph.order` of src/lab_commons/compute/graph.py against what each unit reads.
use lab_commons.Commons.{
  ℕ, zero, suc, ◌≤◌, ◌<◌, String, ◌≡◌, refl, sym, ap, ◌∙◌, subst, Bool, true, false, ◌&&◌, Option,
  none, some, List, [], ◌∷◌, ◌++◌, append-nil, append_assoc, arith, eq_refl, all, keep, length,
  Result, ok, err, Error, ok_inj, ◌⊎◌, inl, inr, &&-intro,
}
use lab_commons.Commons.Dict.{Dict, lookup, elem, keys}
use lab_commons.Compute.Vectors.{elem-sorted}
use lab_commons.Compute.Graph.{
  Node, upstream, is_ready, ready_names, without, next_round, order_from, order,
}
use lab_commons.Compute.GraphKeys.{
  IsDistinct, elem-append, elem-keep_keys, elem-without, lookup-without, without-IsDistinct,
  found-kept, length-without, first_ready,
}

abbrev pub reads_done : List String → Option Node → Bool
reads_done done none = false
reads_done done (some u) = all (λ k. elem k done) (upstream u)

-- Each name is a unit's, and what that unit reads is done before it.
abbrev pub runs_after : Dict Node → List String → List String → Bool
runs_after units done [] = true
runs_after units done (k ∷ ks) =
    reads_done done (lookup k units) && runs_after units (done ++ k ∷ []) ks

order_from-enough :
    (fuel : ℕ) (done : List String) (left : Dict Node) (e : Error)
    → length left ≤ fuel
    → order_from fuel done left ≡ err e
    → e ≡ Error.value_error
unfolding order_from
order_from-enough fuel done [] e h r = cc
order_from-enough zero done (u ∷ left) e h r = absurd (omega arith)
order_from-enough (suc fuel) done (u ∷ left) e h r =
    split (ready_names done (u ∷ left))
      (λ k ks q.
        length-without k (ready_names done (u ∷ left)) (u ∷ left) (rw q (rw (eq_refl k)))
          (first_ready k ks done (u ∷ left) q))
      (order_from-enough fuel (done ++ ready_names done (u ∷ left))
        (without (ready_names done (u ∷ left)) (u ∷ left)) e)
      refl r
  where
    split :
        (ready : List String)
        → ((k : String) (ks : List String)
            → ready_names done (u ∷ left) ≡ k ∷ ks
            → length (without (ready_names done (u ∷ left)) (u ∷ left)) < suc (length left))
        → (length (without (ready_names done (u ∷ left)) (u ∷ left)) ≤ fuel
            → order_from fuel
                (done ++ ready_names done (u ∷ left))
                (without (ready_names done (u ∷ left)) (u ∷ left))
              ≡ err e
            → e ≡ Error.value_error)
        → ready_names done (u ∷ left) ≡ ready
        → next_round ready (
            order_from fuel
              (done ++ ready_names done (u ∷ left))
              (without (ready_names done (u ∷ left)) (u ∷ left)))
          ≡ err e
        → e ≡ Error.value_error
    split [] fewer again q r' = cc
    split (k ∷ ks) fewer again q r' = again (omega (arith, fewer k ks q)) r'

-- The order of a graph never runs out of fuel: it is found, or refused with the value error.
pub order-ends :
    (units : Dict Node)
    → ((ns : List String) × (order units ≡ ok ns)) ⊎ (order units ≡ err Error.value_error)
unfolding order
order-ends units = split (order units) refl
  where
    split :
        (r : Result (List String))
        → order units ≡ r
        → ((ns : List String) × (order units ≡ ok ns)) ⊎ (order units ≡ err Error.value_error)
    split (ok ns) h = inl (ns, h)
    split (err e) h = inr (h ∙ ap err (order_from-enough (length units) [] units e (omega arith) h))

all-done :
    (done extra ks : List String)
    → all (λ k. elem k done) ks ≡ true
    → all (λ k. elem k (done ++ extra)) ks ≡ true
all-done done extra [] h = refl
all-done done extra (k ∷ ks) h = ground (arith, all-done done extra ks, elem-append k done extra)

module _ (units : Dict Node) where
  reads_more :
      (done extra : List String) (o : Option Node)
      → reads_done done o ≡ true
      → reads_done (done ++ extra) o ≡ true
  reads_more done extra none h = cc
  reads_more done extra (some u) h = all-done done extra (upstream u) h

  -- Names that can all run after `done` run after it in any order, and the rest after them.
  runs_after-batch :
      (done extra ks rest : List String)
      → ((k : String) → elem k ks ≡ true → reads_done done (lookup k units) ≡ true)
      → runs_after units ((done ++ extra) ++ ks) rest ≡ true
      → runs_after units (done ++ extra) (ks ++ rest) ≡ true
  runs_after-batch done extra [] rest h r =
      subst (λ d. runs_after units d rest ≡ true) (append-nil (done ++ extra)) r
  runs_after-batch done extra (k ∷ ks) rest h r =
      &&-intro _ _ (reads_more done extra (lookup k units) (h k (rw (eq_refl k)))) (
        subst (λ d. runs_after units d (ks ++ rest) ≡ true) (sym (append_assoc done extra (k ∷ [])))
          (runs_after-batch done (extra ++ k ∷ []) ks rest (λ j e. h j (ground (arith, e)))
            (subst (λ d. runs_after units d rest ≡ true)
              (sym (append_assoc (done ++ extra) (k ∷ []) ks)
                ∙ ap (λ d. d ++ ks) (append_assoc done extra (k ∷ [])))
              r)))

  next_round-ok :
      (ready ns : List String) (rest : Result (List String))
      → next_round ready rest ≡ ok ns
      → rest ≡ ok ns
  next_round-ok [] ns rest h = cc
  next_round-ok (k ∷ ready) ns rest h = h

  ready-runs :
      (done : List String) (left : Dict Node) (k : String)
      → IsDistinct left
      → (elem k done ≡ false → lookup k left ≡ lookup k units)
      → (elem k (keys left) ≡ true → elem k done ≡ false)
      → elem k (ready_names done left) ≡ true
      → (elem k (keys left) ≡ true) × (reads_done done (lookup k units) ≡ true)
  ready-runs done left k d same apart e =
      let kept = sym (elem-sorted k (keys (keep (is_ready done) left))) ∙ e in
      let there = elem-keep_keys (is_ready done) k left kept in
      let (u, f, q) = found-kept (is_ready done) k left d kept in
      (there, ap (reads_done done) (sym (same (apart there)) ∙ f) ∙ q)

  order_from-runs :
      (fuel : ℕ) (done : List String) (left : Dict Node) (ns : List String)
      → IsDistinct left
      → ((k : String) → elem k done ≡ false → lookup k left ≡ lookup k units)
      → ((k : String) → elem k (keys left) ≡ true → elem k done ≡ false)
      → order_from fuel done left ≡ ok ns
      → (tail : List String) × (ns ≡ done ++ tail)
        × (runs_after units done tail ≡ true)
        × ((k : String) → elem k tail ≡ elem k (keys left))
  unfolding order_from
  order_from-runs fuel done [] ns d same apart h =
      ([], sym (ok_inj h) ∙ sym (append-nil done), refl, λ k. refl)
  order_from-runs zero done (u ∷ left) ns d same apart h = cc
  order_from-runs (suc fuel) done (u ∷ left) ns d same apart h =
      let ready = ready_names done (u ∷ left) in
      let left' = without ready (u ∷ left) in
      let runs = λ (k : String). ready-runs done (u ∷ left) k d (same k) (apart k) in
      let (tail, e, r, names) =
        order_from-runs fuel (done ++ ready) left' ns (without-IsDistinct ready (u ∷ left) d)
          (λ k free.
            lookup-without k ready (u ∷ left) (ground (arith, elem-append k done ready, free))
            ∙ same k (ground (arith, elem-append k done ready, free)))
          (λ k there.
            ground
              (arith, elem-append k done ready, elem-without k ready (u ∷ left), there, apart k))
          (next_round-ok ready ns _ h) in
      (
        ready ++ tail,
        e ∙ append_assoc done ready tail,
        subst (λ x. runs_after units x (ready ++ tail) ≡ true) (append-nil done)
            (runs_after-batch done [] ready tail (λ k q. (runs k q).1)
              (subst (λ x. runs_after units (x ++ ready) tail ≡ true) (sym (append-nil done)) r)),
        λ k.
            elem-append k ready tail
            ∙ ground (arith, names k, elem-without k ready (u ∷ left), runs k),
      )

  -- An order that is found names exactly the units, and each comes after all that it reads.
  pub order-runs_after :
      (ns : List String)
      → IsDistinct units
      → order units ≡ ok ns
      → (runs_after units [] ns ≡ true) × ((k : String) → elem k ns ≡ elem k (keys units))
  unfolding order
  order-runs_after ns d h =
      let (tail, e, r, names) =
        order_from-runs (length units) [] units ns d (λ k free. refl) (λ k there. refl) h in
      (ap (runs_after units []) e ∙ r, λ k. ap (elem k) e ∙ names k)
