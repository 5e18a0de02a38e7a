-- ===== src/Triage/Shown.antt =====
-- `shown_field` of triage.py: a field of untrusted text on a line of the listing.
use skodun.Prelude.{not, keep, take}
use skodun.Prelude.Text.{Text}
use skodun.Json.{Json}
use skodun.Textnorm.{Python}
use skodun.Trust.{one_line}
use skodun.Triage.Floors.{is_control}

unfoldable pub shown_field : Python → Json → Text
unfolding one_line is_control keep
shown_field py value = take 120 (keep (λ c. not (is_control c)) (one_line py value))
