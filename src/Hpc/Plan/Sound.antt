-- ===== src/Hpc/Plan/Sound.antt =====
-- What a plan of `make_plan` (src/lab_commons/hpc/plan.py) may be relied on for.
use lab_commons.Commons.{
  ℕ, zero, suc, ◌≤◌, ◌<◌, String, ◌≡◌, ◌≢◌, refl, subst, Bool, true, false, Option, none, some,
  List, [], ◌∷◌, length, All, if◌then◌else◌, arith, inl, inr, Option-cases,
}
use lab_commons.Commons.Dict.{lookup}
use lab_commons.Hpc.Shards.{Range}
use lab_commons.Hpc.Pack.{Chains}
use lab_commons.Hpc.Plan.Quota.{Partition, Snapshot, submit_room}
use lab_commons.Hpc.Plan.Cut.{Grows, Policy, capped, one_wave, shards_of, shards_of_lem}
use lab_commons.Hpc.Plan.Make.{Cluster, Open, is_closed, open_part, open_one, open_all, open_in}

-- The candidate is the one that its name gives, and its QOS takes a submit.
pub record IsOpen (snapshot : Snapshot) (cluster : Cluster) (o : Open) : Type 0 where
  pub is_candidate : open_one snapshot cluster o.name ≡ some o
  pub takes : o.room ≡ submit_room snapshot.quota o.qos
  pub has_room : o.room ≢ some 0

if-some {ℓ} :
    {A : Type ℓ} (b : Bool) (x : A) {y : A}
    → (if b then none else some x) ≡ some y
    → (b ≡ false) × (x ≡ y)
if-some true x h = cc
if-some false x h = (refl, cc)

not_zero :
    (part : Partition) (qos : String) (room : Option ℕ)
    → is_closed part qos room ≡ false
    → room ≢ some 0
not_zero part qos room h e = ground (arith, h, e)

open_part-IsOpen :
    (snapshot : Snapshot) (cluster : Cluster) (name : String) (part : Partition) {o : Open}
    → lookup name snapshot.partitions ≡ some part
    → open_part snapshot cluster name part ≡ some o
    → IsOpen snapshot cluster o
unfolding open_part open_one
open_part-IsOpen snapshot cluster name part {o} there h =
    let (opens, same) = if-some _ _ h in
    let found : open_one snapshot cluster name ≡ some o = rw (there, open_one) h in
    record {
      is_candidate = subst (λ (x : Open). open_one snapshot cluster x.name ≡ some o) same found;
      takes = subst (λ (x : Open). x.room ≡ submit_room snapshot.quota x.qos) same refl;
      has_room = subst (λ (x : Open). x.room ≢ some 0) same (not_zero part _ _ opens);
    }

open_one-IsOpen :
    (snapshot : Snapshot) (cluster : Cluster) (name : String) {o : Open}
    → open_one snapshot cluster name ≡ some o
    → IsOpen snapshot cluster o
unfolding open_one
open_one-IsOpen snapshot cluster name h = elim (Option-cases (lookup name snapshot.partitions)) [
  | inl e ↦ absurd (ground (arith, e, h))
  | inr (part, e) ↦ open_part-IsOpen snapshot cluster name part e (rw (e, open_one) at h)
]

open_all-IsOpen :
    (snapshot : Snapshot) (cluster : Cluster) (names : List String)
    → All (IsOpen snapshot cluster) (open_all snapshot cluster names)
unfolding open_all
open_all-IsOpen snapshot cluster [] = tt
open_all-IsOpen snapshot cluster (name ∷ names) =
    elim (Option-cases (open_one snapshot cluster name)) [
      | inl e ↦ rw (e, All) (open_all-IsOpen snapshot cluster names)
      | inr (o, e) ↦
          rw (e, All)
            (open_one-IsOpen snapshot cluster name e, open_all-IsOpen snapshot cluster names)
    ]

-- What shards of a batch may be relied on for: no more than the array and the room take, all items in order.
abbrev pub Fits : Policy → Option ℕ → ℕ → List Range → Type 0
Fits policy room items shards =
    (length shards ≤ capped policy.max_array room) × Chains 0 items shards

capped_pos : (n : ℕ) (room : Option ℕ) → 0 < n → room ≢ some 0 → 0 < capped n room
capped_pos n none h r = h
capped_pos n (some zero) h r = absurd (r refl)
capped_pos n (some (suc k)) h r = ground arith

capped_le : (n m : ℕ) (room : Option ℕ) → capped n (some (capped m room)) ≤ capped n room
capped_le n m none = ground arith
capped_le n m (some k) = ground arith

either {ℓ} : {A : Type 0} (P : A → Type ℓ) (b : Bool) (x y : A) → P x → P y → P (if b then x else y)
either P true x y h k = h
either P false x y h k = k

pub one_wave_lem :
    (padded : List ℕ) (policy : Policy) (room : Option ℕ) (at_once : ℕ) (ceiling : Option ℕ)
    → Grows policy
    → 0 < policy.max_array
    → 0 < at_once
    → room ≢ some 0
    → Fits policy room (length padded) (one_wave padded policy room at_once ceiling).0
unfolding one_wave
one_wave_lem padded policy room at_once ceiling grows arrays once has_room =
    let once_room = capped_pos at_once room once has_room in
    let first = shards_of_lem padded policy (some (capped at_once room)) grows (
      capped_pos policy.max_array (some (capped at_once room)) arrays
        (λ e. absurd (ground (arith, e, once_room)))) in
    let second =
      shards_of_lem padded policy room grows (capped_pos policy.max_array room arrays has_room) in
    either (Fits policy room (length padded)) _ (shards_of padded policy room)
      (shards_of padded policy (some (capped at_once room))) second
      (omega (arith, first.0, capped_le policy.max_array at_once room), first.1)

pub open_in-IsOpen :
    (snapshot : Snapshot) (cluster : Cluster)
    → All (IsOpen snapshot cluster) (open_in snapshot cluster)
unfolding open_in
open_in-IsOpen snapshot cluster = open_all-IsOpen snapshot cluster _
