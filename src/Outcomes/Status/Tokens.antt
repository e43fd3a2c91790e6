-- ===== src/Outcomes/Status/Tokens.antt =====
-- The persisted spellings of src/lab_commons/outcomes/status.py.
use lab_commons.Commons.{◌≡◌, refl, sym, ap, ◌∙◌, true, ◌↔◌, eq_iff, ok, ok_inj}
use lab_commons.Outcomes.Status.{
  Status, ok_status, Evidence, predicted, value, parse_status, status_eq, token, parse_evidence,
}

-- Each status is read back from its persisted value.
pub parse_status-value : (s : Status) → parse_status (value s) ≡ ok s
unfolding parse_status value
parse_status-value ok_status = refl
parse_status-value _ = refl

-- Each evidence is read back from its persisted token.
pub parse_evidence-token : (e : Evidence) → parse_evidence (token e) ≡ ok e
unfolding parse_evidence token
parse_evidence-token predicted = refl
parse_evidence-token _ = refl

pub status_eq_iff : (s t : Status) → (status_eq s t ≡ true) ↔ (s ≡ t)
unfolding status_eq
status_eq_iff s t = (
  λ h. ok_inj (
      sym (parse_status-value s)
      ∙ ap parse_status ((eq_iff (value s) (value t)).0 h)
      ∙ parse_status-value t),
  λ e. (eq_iff (value s) (value t)).1 (ap value e),
)

pub status_eq_refl : (s : Status) → status_eq s s ≡ true
status_eq_refl s = (status_eq_iff s s).1 refl
