-- ===== src/Hpc/Round/Covers.antt =====
-- What the branches of `fold` (src/lab_commons/hpc/records.py) do with the ids of an item: which of them have a
-- cell after it or wait for the next round.
use lab_commons.Commons.{
  ℕ, zero, suc, ◌+◌, ◌/◌, String, ◌≡◌, refl, ap, ap₂, sym, subst, ok_inj, ◌∙◌, Bool, true, false,
  not, ◌&&◌, ◌||◌, Option, none, some, List, [], ◌∷◌, ◌++◌, str_eq, eq_iff, length, take, keep, any,
  ok, >>=-eq-ok, traverse, arith, inl, inr, Bool-cases,
}
use lab_commons.Commons.Dict.{Dict, elem, insert, keys}
use lab_commons.Commons.Int.{ℤ}
use lab_commons.Outcomes.Plain.{Fields}
use lab_commons.Hpc.Round.Stream.{Done, Folded, is_signalled}
use lab_commons.Hpc.Round.Measured.{unreported}
use lab_commons.Hpc.Round.Losses.{Setting, Notice, plain_of}
use lab_commons.Hpc.Round.Fold.{
  Round, settle_item, cut_at_top, put_cells, put_each, if_any, exited, halves, after_drop,
  unfinished, fold_reported, fold_item, plain_item,
}

pub elem-insert {ℓ} :
    {V : Type ℓ} (k j : String) (v : V) (d : Dict V)
    → elem k (keys (insert j v d)) ≡ (str_eq j k || elem k (keys d))
unfolding insert
elem-insert k j v [] = refl
elem-insert k j v ((i, w) ∷ d) =
    ground (arith, elem-insert k j v d, eq_iff i j, eq_iff i k, eq_iff j k)

pub elem-put_cells :
    (k : String) (cells more : Dict Fields)
    → elem k (keys (put_cells cells more)) ≡ (elem k (keys cells) || elem k (keys more))
unfolding put_cells
elem-put_cells k cells [] = ground arith
elem-put_cells k cells ((j, c) ∷ more) =
    ground (arith, elem-put_cells k (insert j c cells) more, elem-insert k j c cells)

pub elem-put_each :
    (k : String) (ns : List String) (c : Fields) (cells : Dict Fields)
    → elem k (keys (put_each ns c cells)) ≡ (elem k (keys cells) || elem k ns)
unfolding put_each
elem-put_each k [] c cells = ground arith
elem-put_each k (j ∷ ns) c cells =
    ground (arith, elem-put_each k ns c (insert j c cells), elem-insert k j c cells)

pub elem-keep :
    (p : String → Bool) (k : String) (ks : List String) → elem k (keep p ks) ≡ (elem k ks && p k)
elem-keep p k [] = refl
elem-keep p k (j ∷ ks) = ground (arith, eq_iff j k, elem-keep p k ks)

abbrev pub waits : String → List (List String) → Bool
waits k groups = any (elem k) groups

pub waits-append :
    (k : String) (gs hs : List (List String)) → waits k (gs ++ hs) ≡ (waits k gs || waits k hs)
waits-append k [] hs = refl
waits-append k (g ∷ gs) hs = ground (arith, waits-append k gs hs)

waits-if_any : (k : String) (ns : List String) → waits k (if_any ns) ≡ elem k ns
waits-if_any k [] = refl
waits-if_any k (n ∷ ns) = ground arith

elem-take :
    (h : ℕ) (k : String) (ns : List String)
    → (elem k (take h ns) || elem k (after_drop h ns)) ≡ elem k ns
elem-take zero k ns = refl
elem-take (suc h) k [] = refl
elem-take (suc h) k (n ∷ ns) = ground (arith, elem-take h k ns)

waits-halves : (k : String) (ns : List String) → waits k (halves ns) ≡ elem k ns
unfolding halves
waits-halves k ns =
    let half = (length ns + 1) / 2 in
    waits-append k (if_any (take half ns)) (if_any (after_drop half ns))
    ∙ ap₂ (λ a b. a || b) (waits-if_any k (take half ns)) (waits-if_any k (after_drop half ns))
    ∙ elem-take half k ns

-- The id has a cell, or waits for the next round.
abbrev pub covered : String → Round → Bool
covered k r = elem k (keys r.cells) || waits k r.waiting

covered-each :
    (k : String) (ns : List String) (c : Fields) (r : Round)
    → covered k (record r { cells = put_each ns c r.cells }) ≡ (covered k r || elem k ns)
covered-each k ns c r = ground (arith, elem-put_each k ns c r.cells)

exited-hit :
    (k hit : String) (c : Fields) (rest : List String) (r : Round)
    → elem hit rest ≡ true
    → covered k (record r {
      cells = insert hit c r.cells;
      waiting = r.waiting ++ if_any (keep (λ n. not (str_eq n hit)) rest);
    })
      ≡ (covered k r || elem k rest)
exited-hit k hit c rest r h = ground (
  arith,
  elem-insert k hit c r.cells,
  waits-append k r.waiting (if_any (keep (λ n. not (str_eq n hit)) rest)),
  waits-if_any k (keep (λ n. not (str_eq n hit)) rest),
  elem-keep (λ n. not (str_eq n hit)) k rest,
  eq_iff hit k,
  eq_iff k hit,
)

pub exited-covered :
    (told : Notice → String) (code : ℤ) (hit : Option String) (rest : List String) (r : Round)
    (k : String)
    → covered k (exited told code hit rest r) ≡ (covered k r || elem k rest)
unfolding exited
exited-covered told code none rest r k = covered-each k rest _ r
exited-covered told code (some hit) rest r k = elim (Bool-cases (elem hit rest)) [
  | inl h ↦ rw h (exited-hit k hit _ rest r h)
  | inr h ↦ rw h (covered-each k rest _ r)
]

cut-covered :
    (k cut : String) (c : Fields) (rest : List String) (r : Round)
    → covered k (record r { cells = insert cut c r.cells; waiting = r.waiting ++ if_any rest })
      ≡ (covered k r || elem k (cut ∷ rest))
cut-covered k cut c rest r = ground (
  arith,
  elem-insert k cut c r.cells,
  waits-append k r.waiting (if_any rest),
  waits-if_any k rest,
)

lone-covered :
    (k lone : String) (c : Fields) (r : Round)
    → covered k (record r { cells = insert lone c r.cells }) ≡ (covered k r || elem k (lone ∷ []))
lone-covered k lone c r = ground (arith, elem-insert k lone c r.cells)

halved-covered :
    (k : String) (rest : List String) (r : Round)
    → covered k (record r { waiting = r.waiting ++ halves rest }) ≡ (covered k r || elem k rest)
halved-covered k rest r =
    ground (arith, waits-append k r.waiting (halves rest), waits-halves k rest)

abbrev Covers : String → Round → List String → Round → Type 0
Covers k r rest left = covered k left ≡ (covered k r || elem k rest)

pub unfinished-covered :
    (told : Notice → String) (top hog peak : Option ℕ) (rest : List String) (r : Round)
    {left : Round} (k : String)
    → unfinished told top hog peak rest r ≡ ok left
    → covered k left ≡ (covered k r || elem k rest)
unfolding unfinished
unfinished-covered told (some top) hog peak [] r k h = cc
unfinished-covered told (some top) hog peak (cut ∷ rest) r k h =
    subst (Covers k r (cut ∷ rest)) (ok_inj h) (cut-covered k cut _ rest r)
unfinished-covered told none (some limit) peak (lone ∷ []) r k h =
    subst (Covers k r (lone ∷ [])) (ok_inj h) (lone-covered k lone _ r)
unfinished-covered told none (some limit) peak [] r k h =
    subst (Covers k r []) (ok_inj h) (halved-covered k [] r)
unfinished-covered told none (some limit) peak (a ∷ b ∷ rest) r k h =
    subst (Covers k r (a ∷ b ∷ rest)) (ok_inj h) (halved-covered k (a ∷ b ∷ rest) r)
unfinished-covered told none none peak rest r k h =
    subst (Covers k r rest) (ok_inj h) (halved-covered k rest r)

-- The cells of an item in plain form stand under the ids that it reported.
pub keys-plain :
    (cells : Dict Fields) {plain : Dict Fields} (k : String)
    → traverse plain_item cells ≡ ok plain
    → elem k (keys plain) ≡ elem k (keys cells)
keys-plain [] k h = subst (λ d. elem k (keys d) ≡ false) (ok_inj h) refl
keys-plain ((j, line) ∷ cells) k h =
    let ((i, p), one, rest) = >>=-eq-ok (plain_item (j, line)) _ h in
    let (more, many, end) = >>=-eq-ok (traverse plain_item cells) _ rest in
    let (q, read, same) = >>=-eq-ok (plain_of line) _ one in
    subst (λ d. elem k (keys d) ≡ (str_eq j k || elem k (keys cells))) (ok_inj end)
      (ap₂ (λ (a : String) (b : Bool). str_eq a k || b) (sym (ap (λ x. x.0) (ok_inj same)))
        (keys-plain cells k many))

settle_item-covered :
    (s : Setting) (shard : Option ℕ) (i : ℕ) (closed : Option Done) (hit : Option String)
    (rest : List String) (seen taught : Round) {left : Round} (k : String)
    → covered k taught ≡ covered k seen
    → settle_item s shard i closed hit rest seen taught ≡ ok left
    → covered k left ≡ (covered k seen || elem k rest)
unfolding settle_item
settle_item-covered s shard i none hit rest seen taught k same h =
    unfinished-covered s.told (cut_at_top s shard) (s.alone i) none rest taught k h
    ∙ ap (λ b. b || elem k rest) same
settle_item-covered s shard i (some done) hit rest seen taught k same h =
    elim (Bool-cases (is_signalled (some done))) [
      | inl e ↦
          unfinished-covered s.told (cut_at_top s shard) (s.alone i) done.peak rest taught k
            (rw e at h)
          ∙ ap (λ b. b || elem k rest) same
      | inr e ↦
          subst (Covers k seen rest) (ok_inj (rw e at h))
            (exited-covered s.told done.code hit rest seen k)
    ]

or_shift : (a b w c : Bool) → (((a || b) || w) || c) ≡ ((a || w) || (b || c))
or_shift a b w c = ground arith

-- After an item's turn an id is covered exactly when it was before, or the item reported or owes it.
pub fold_item-covered :
    (s : Setting) (spent i : ℕ) (ids : List String) (f : Folded) (r : Round) {left : Round}
    (k : String)
    → fold_item s spent i ids f r ≡ ok left
    → covered k left ≡ (covered k r || (elem k (keys f.cells) || elem k (unreported ids f)))
unfolding fold_item fold_reported
fold_item-covered s spent i ids f r k h =
    let (plain, read, done) = >>=-eq-ok (traverse plain_item f.cells) _ h in
    settle_item-covered s _ i f.closed f.started (unreported ids f) _ _ k refl done
    ∙ ap (λ b. (b || waits k r.waiting) || elem k (unreported ids f))
        (elem-put_cells k r.cells plain
          ∙ ap (λ b. elem k (keys r.cells) || b) (keys-plain f.cells k read))
    ∙ or_shift (elem k (keys r.cells)) (elem k (keys f.cells)) (waits k r.waiting)
        (elem k (unreported ids f))
