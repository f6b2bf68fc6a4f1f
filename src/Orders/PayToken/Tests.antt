-- ===== src/Orders/PayToken/Tests.antt =====
-- The theorems on the payment token at a concrete token.
use new_sopet_backend.Prelude.{ℕ, ◌<◌, ◌∷◌, ◌+◌, ◌≡◌, refl, some, false, leb, if◌then◌else◌}
use new_sopet_backend.Prelude.Text.{Text, codes, is_empty}
use new_sopet_backend.Prelude.Result.{ok, err, ◌>>=◌, throw_if}
use new_sopet_backend.Orders.Tracking.{guest_pay_token_expired}
use new_sopet_backend.Orders.PayToken.{
  issue_guest_pay_token, guest_pay_tokens_match, assert_guest_pay_token_access, issued_token_opens,
  assert_guest_pay_token_access_sound,
}

-- A stand-in for SHA-256.
abbrev tag : Text → Text
tag t = 35 ∷ t

issued_token_opens_example :
    let i = issue_guest_pay_token tag (codes "c0ffee") 1000 500 in
    assert_guest_pay_token_access tag (some i.hash) (some i.expires_at) (some i.plaintext) 1400
    ≡ (if leb (1000 + 500) 1400 then err guest_pay_token_expired else ok tt)
issued_token_opens_example = issued_token_opens tag (codes "c0ffee") 1000 500 1400 refl refl

opened :
    assert_guest_pay_token_access tag
      (some (tag (codes "c0ffee")))
      (some 1500)
      (some (codes "c0ffee"))
      1400
    ≡ ok tt
unfolding assert_guest_pay_token_access guest_pay_tokens_match ◌>>=◌ throw_if
opened = refl

assert_guest_pay_token_access_sound_example :
    (hash : Text) × (text : Text) × (some (tag (codes "c0ffee")) ≡ some hash)
    × (some (codes "c0ffee") ≡ some text)
    × (tag text ≡ hash)
    × (is_empty hash ≡ false)
    × (is_empty text ≡ false)
    × ((t : ℕ) → some 1500 ≡ some t → 1400 < t)
assert_guest_pay_token_access_sound_example =
    assert_guest_pay_token_access_sound tag (some (tag (codes "c0ffee"))) (some (codes "c0ffee"))
      (some 1500) 1400 opened
