-- ===== src/Orders/Tracking/Valid.antt =====
-- What the validators of a tracking number and its URL accept.
mod Tests
use new_sopet_backend.Prelude.{
  ℕ, ◌≤◌, ◌≡◌, ◌⊎◌, inl, inr, refl, Bool, true, false, Option, none, some, List, [], ◌∷◌, arith,
  length, ltb, if◌then◌else◌, Bool-cases, Option-cases,
}
use new_sopet_backend.Prelude.Text.{Text, codes, trim, text_eq, is_empty}
use new_sopet_backend.Prelude.Text.Trim.{trim_twice}
use new_sopet_backend.Prelude.Result.{Result, ok, err}
use new_sopet_backend.Orders.Tracking.{
  Error, Url, UrlParser, text_or_empty, check_protocol, validate_optional_tracking_url,
  validate_tracking_number,
}

-- An accepted tracking number is the one that was given, trimmed. It has 1 to 100 code units, and
-- the validator accepts it again as it is.
pub validate_tracking_number_lem :
    (given number : Text)
    → validate_tracking_number given ≡ ok number
    → (number ≡ trim given)
      × (is_empty number ≡ false)
      × (length number ≤ 100)
      × (validate_tracking_number number ≡ ok number)
unfolding validate_tracking_number
validate_tracking_number_lem given number h =
    let same : number ≡ trim given = ground arith in
    let full : is_empty (trim given) ≡ false = ground arith in
    let short : ltb 100 (length (trim given)) ≡ false = ground arith in
    (
      same,
      rw same full,
      rw same (ground arith),
      rw same (rw (trim_twice given, validate_tracking_number) (rw (full, short) refl)),
    )

-- A URL that is stored was parsed from the trimmed text and has the protocol `https:`; nothing is
-- stored only for a blank text.
pub validate_optional_tracking_url_lem :
    (parse : UrlParser) (given stored : Option Text)
    → validate_optional_tracking_url parse given ≡ ok stored
    → ((stored ≡ none) × (is_empty (trim (text_or_empty given)) ≡ true))
      ⊎ ((url : Url) × (parse (trim (text_or_empty given)) ≡ some url)
          × (stored ≡ some url.href)
          × (text_eq url.protocol (codes "https:") ≡ true))
unfolding validate_optional_tracking_url check_protocol
validate_optional_tracking_url_lem parse given stored h =
    elim (Bool-cases (is_empty (trim (text_or_empty given)))) [
      | inl blank ↦ inl (ground arith, blank)
      | inr full ↦ elim (Option-cases (parse (trim (text_or_empty given)))) [
        | inl bad ↦ ground arith
        | inr (url, good) ↦ inr (url, good, ground arith, ground arith)
      ]
    ]
