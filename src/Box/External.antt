-- ===== src/Box/External.antt =====
-- `external` and `adopted` of src/lab_commons/box/ledger.py, with `Capacity.lent` of
-- src/lab_commons/box/demand.py.
use lab_commons.Commons.{
  none, ℕ, String, Bool, true, false, ◌&&◌, ◌||◌, Option, List, [], ◌∷◌, map, any, all, leb, ◌==◌,
  Result, ok, Error, ◌>>=◌, ◌>>◌, guard,
}
use lab_commons.Commons.Int.{ℤ}
use lab_commons.Commons.Text.{codes}
use lab_commons.Commons.Dict.{Dict, insert}
use lab_commons.Box.Demand.{Capacity}
use lab_commons.Box.Room.{merge}
use lab_commons.Box.Ledger.{ClaimRow, Ledger, hand_over, persist, release}
use lab_commons.Box.Wait.{Look}
use lab_commons.Box.Hold.{Request, Asker, Held, seconds, hold}

abbrev is_between : ℕ → ℕ → ℕ → Bool
is_between low high c = leb low c && leb c high

abbrev is_lower : ℕ → Bool
is_lower c = is_between b'a' b'z' c

abbrev is_digit : ℕ → Bool
is_digit c = is_between b'0' b'9' c

abbrev in_instance : ℕ → Bool
in_instance c =
    is_lower c || is_between b'A' b'Z' c || is_digit c || c == b'_' || c == b'.' || c == b'-'

-- What `$` lets follow: nothing, or a newline that ends the text.
abbrev instance_codes : List ℕ → Bool
instance_codes [] = true
instance_codes (c ∷ []) = in_instance c || c == b'\n'
instance_codes (c ∷ d ∷ cs) = in_instance c && instance_codes (d ∷ cs)

abbrev begins_instance : List ℕ → Bool
begins_instance [] = false
begins_instance (c ∷ cs) = in_instance c && instance_codes cs

abbrev kind_codes : List ℕ → Bool
kind_codes [] = false
kind_codes (c ∷ cs) =
    (is_lower c || is_digit c || c == b'_') && kind_codes cs || c == b':' && begins_instance cs

abbrev lent_codes : List ℕ → Bool
lent_codes [] = false
lent_codes (c ∷ cs) = is_lower c && kind_codes cs

-- `LENT_NAME.match(name)`
unfoldable pub is_lent_name : String → Bool
is_lent_name name = lent_codes (codes name)

abbrev is_lent : String × ℤ → Bool
is_lent i = is_lent_name i.0 && leb 1 (seconds i.1)

-- `Capacity.lent(seats)`
unfoldable pub lent : Dict ℤ → Result Capacity
unfolding is_lent_name
lent counts = do
  guard (all is_lent counts) Error.value_error
  ok (record {
    cpu = 0;
    memory = 0;
    seats = map (λ i. (i.0, seconds i.1)) counts;
    kept_cpu = 0;
    kept_bytes = 0;
    watched = [];
    blind = [];
  })

abbrev pub lent_onto : Capacity → Dict ℤ → Result Capacity
lent_onto capacity [] = ok capacity
lent_onto capacity (i ∷ counts) = do
  more ← lent (i ∷ counts)
  ok (record capacity { seats = merge capacity.seats more.seats })

abbrev pub has_args : List String → Bool
has_args [] = false
has_args (arg ∷ args) = true

-- `external(..., probe=probe, lent=counts)`; no `lent` is the empty dictionary.
unfoldable pub external :
    String → Request → List String → Dict ℤ → Asker → List Look → Ledger → Result (Held × Ledger)
unfolding lent insert hold persist
external os request probe counts asker looks before = do
  guard (has_args probe) Error.value_error
  capacity ← lent_onto request.capacity counts
  hold os (record request { capacity = capacity; fingerprint = none; outside = true }) asker looks
      (λ n ledger. persist n probe ledger) before

-- `with adopted(claim_id): body`, by the process `pid` with its stamp.
unfoldable pub adopted : ℕ → ℕ → Option ℕ → (Ledger → Ledger) → Ledger → Result Ledger
unfolding hand_over release
adopted n pid stamp body ledger = do
  guard (any (λ (r : ClaimRow). r.id == n) ledger.claims) Error.refused
  ok (release n (body (hand_over n pid stamp ledger)))
