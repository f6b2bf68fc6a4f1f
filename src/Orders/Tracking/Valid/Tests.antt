-- ===== src/Orders/Tracking/Valid/Tests.antt =====
-- The validators at concrete texts.
use new_sopet_backend.Prelude.{◌≡◌, refl, some}
use new_sopet_backend.Prelude.Text.{codes, trim}
use new_sopet_backend.Prelude.Result.{ok}
use new_sopet_backend.Orders.Tracking.{
  UrlParser, check_protocol, validate_optional_tracking_url, validate_tracking_number,
}

accepted : validate_tracking_number (codes " TH1 ") ≡ ok (codes "TH1")
unfolding validate_tracking_number trim
accepted = refl

-- A stand-in for `new URL`.
abbrev parse : UrlParser
parse t = some record { protocol = codes "https:"; href = t }

stored :
    validate_optional_tracking_url parse (some (codes " https://x "))
    ≡ ok (some (codes "https://x"))
unfolding validate_optional_tracking_url check_protocol trim
stored = refl
