-- ===== src/Box/HoldLaws.antt =====
-- `_wait` and `hold` of src/lab_commons/box/ledger.py: how a wait ends and what it leaves in the ledger.
use lab_commons.Commons.{
  ℕ, ◌==◌, String, ◌≡◌, refl, ◌∙◌, Bool, true, false, not, ◌||◌, List, [], ◌∷◌, ◌++◌, arith, keep,
  any, leb, ==_refl, Result, ok, err, Bool-cases, inl, inr, ◌⊎◌,
}
use lab_commons.Box.Ledger.{ClaimRow, TicketRow, Ledger}
use lab_commons.Box.Queue.{
  Claim, Ask, Sight, Outcome, admitted, no_room, behind, claim_row, enter_claim, drop_ticket,
}
use lab_commons.Box.PoolSteps.{Tried, looked, try_ticket_lem}
use lab_commons.Box.Wait.{Look, Waited, look_once, go_on, sight_of, wait}

-- The wait came to a claim or an exception.
abbrev pub has_ended : Waited → Bool
has_ended (Waited.ended outcome) = true
has_ended Waited.waiting = false

-- The time of a look is the end of the wait's patience.
abbrev pub is_last : ℕ → Look → Bool
is_last gives_up look = leb gives_up look.after

abbrev pub has_row : ℕ → Ledger → Bool
has_row n ledger = any (λ (r : ClaimRow). r.id == n) ledger.claims

abbrev pub has_ticket : ℕ → Ledger → Bool
has_ticket n ledger = any (λ (t : TicketRow). t.id == n) ledger.tickets

module _ {ℓ} {A : Type ℓ} (p : A → Bool) where
  pub any-append : (xs ys : List A) → any p (xs ++ ys) ≡ (any p xs || any p ys)
  any-append [] ys = refl
  any-append (x ∷ xs) ys = ground (arith, any-append xs ys)

  pub any-keep-not : (xs : List A) → any p (keep (λ x. not (p x)) xs) ≡ false
  any-keep-not [] = refl
  any-keep-not (x ∷ xs) = elim (Bool-cases (p x)) [
    | inl h ↦ rw h (any-keep-not xs)
    | inr h ↦ rw h (rw h (any-keep-not xs))
  ]

entered_row :
    (ask : Ask) (sight : Sight) (ticket : ℕ) (ledger : Ledger)
    → has_row ledger.next_id (enter_claim ask sight ticket ledger) ≡ true
unfolding enter_claim drop_ticket
entered_row ask sight ticket ledger =
    any-append (λ (r : ClaimRow). r.id == ledger.next_id) ledger.claims
      (claim_row ask sight ledger.next_id ∷ [])
    ∙ ground (arith, ==_refl ledger.next_id)

Tried-row :
    (os : String) (ask : Ask) (sight : Sight) (ticket : ℕ) (ledger after : Ledger) (claim : Claim)
    → Tried os ask sight ticket ledger (admitted claim) after
    → has_row claim.id after ≡ true
Tried-row os ask sight ticket ledger after claim (Tried.enters r b) =
    entered_row ask sight ticket ledger

module _ (os : String) (ask : Ask) (ticket gives_up : ℕ) where
  look-row :
      (look : Look) (before after : Ledger) (claim : Claim)
      → look_once os ask ticket gives_up look before ≡ ok (admitted claim, after)
      → has_row claim.id after ≡ true
  unfolding look_once
  look-row look before after claim h =
      let t =
        try_ticket_lem os ask (sight_of ask look before) ticket (look.meanwhile before) after
          (admitted claim) h in
      Tried-row os ask (sight_of ask look before) ticket
        (looked (sight_of ask look before) (look.meanwhile before)) after claim t.1

  go_on-ends :
      (r : Result (Outcome × Ledger)) (late : Bool) (rest : Ledger → Waited × Ledger)
      (before : Ledger)
      → (late ≡ true) ⊎ ((l : Ledger) → has_ended (rest l).0 ≡ true)
      → has_ended (go_on r late rest before).0 ≡ true
  go_on-ends (err raised) late rest before h = refl
  go_on-ends (ok (admitted claim, l)) late rest before h = refl
  go_on-ends (ok (no_room v, l)) true rest before h = refl
  go_on-ends (ok (no_room v, l)) false rest before (inl h) = cc
  go_on-ends (ok (no_room v, l)) false rest before (inr h) = h l
  go_on-ends (ok (behind, l)) true rest before h = refl
  go_on-ends (ok (behind, l)) false rest before (inl h) = cc
  go_on-ends (ok (behind, l)) false rest before (inr h) = h l

  -- A wait that has a look whose time is past its patience ends there or earlier, with a claim or an
  -- exception, whatever the other processes do.
  pub wait-ends :
      (looks : List Look) (before : Ledger)
      → any (is_last gives_up) looks ≡ true
      → has_ended (wait os ask ticket gives_up looks before).0 ≡ true
  unfolding wait
  wait-ends [] before h = cc
  wait-ends (look ∷ looks) before h =
      go_on-ends (look_once os ask ticket gives_up look (look.others before))
        (leb gives_up look.after) _ _
        (elim (Bool-cases (leb gives_up look.after)) [
          | inl e ↦ inl e
          | inr e ↦ inr (λ l. wait-ends looks l (ground (arith, e, h)))
        ])

  go_on-row :
      (r : Result (Outcome × Ledger)) (late : Bool) (rest : Ledger → Waited × Ledger)
      (before after : Ledger) (claim : Claim)
      → ((l : Ledger) → r ≡ ok (admitted claim, l) → has_row claim.id l ≡ true)
      → ((l : Ledger) → rest l ≡ (Waited.ended (ok claim), after) → has_row claim.id after ≡ true)
      → go_on r late rest before ≡ (Waited.ended (ok claim), after)
      → has_row claim.id after ≡ true
  go_on-row (err raised) late rest before after claim h k e = cc
  go_on-row (ok (admitted c, l)) late rest before after claim h k e = h after (cc)
  go_on-row (ok (no_room v, l)) true rest before after claim h k e = cc
  go_on-row (ok (no_room v, l)) false rest before after claim h k e = k l e
  go_on-row (ok (behind, l)) true rest before after claim h k e = cc
  go_on-row (ok (behind, l)) false rest before after claim h k e = k l e

  pub wait-row :
      (looks : List Look) (before after : Ledger) (claim : Claim)
      → wait os ask ticket gives_up looks before ≡ (Waited.ended (ok claim), after)
      → has_row claim.id after ≡ true
  unfolding wait
  wait-row [] before after claim h = cc
  wait-row (look ∷ looks) before after claim h =
      go_on-row (look_once os ask ticket gives_up look (look.others before))
        (leb gives_up look.after) _ _ after claim
        (λ l e. look-row look (look.others before) l claim e)
        (λ l e. wait-row looks l after claim e) h
