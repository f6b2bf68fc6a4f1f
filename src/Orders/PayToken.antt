-- ===== src/Orders/PayToken.antt =====
-- common/utils/guest-pay-token.util.ts: the token by which a guest may pay and confirm an order.
-- SHA-256 and the random source belong to the runtime: the hash is a parameter, and the 32 random
-- bytes, in hexadecimal, are an argument. An absent date is `none`; a date is in milliseconds.
mod Tests
use new_sopet_backend.Prelude.{
  ℕ, ◌+◌, ◌*◌, ◌≡◌, ◌≤◌, ◌<◌, ◌↔◌, refl, Bool, true, false, not, Option, none, some, List, [], ◌∷◌,
  arith, ◌==◌, leb, if◌then◌else◌, Bool-cases, inl, inr, length, ==_refl,
}
use new_sopet_backend.Prelude.Text.{Text, text_eq, text_eq_refl, text_eq-eq, is_empty}
use new_sopet_backend.Prelude.Result.{Result, ok, err, ◌>>=◌, ◌>>◌, throw_if}
use new_sopet_backend.Orders.Tracking.{
  Error, guest_pay_token_required, guest_pay_token_expired, guest_pay_token_invalid,
}

-- 90 days in milliseconds.
abbrev pub guest_pay_token_ttl_ms : ℕ
guest_pay_token_ttl_ms = 90 * 24 * 60 * 60 * 1000

pub record Issue : Type 0 where
  pub plaintext : Text
  pub hash : Text
  pub expires_at : ℕ

-- An absent or empty text is falsy.
abbrev pub is_absent : Option Text → Bool
is_absent none = true
is_absent (some t) = is_empty t

abbrev pub has_expired : Option ℕ → ℕ → Bool
has_expired none now = false
has_expired (some t) now = leb t now

module _ (sha256 : Text → Text) where
  unfoldable pub issue_guest_pay_token : Text → ℕ → ℕ → Issue
  issue_guest_pay_token random_hex now ttl_ms = record {
    plaintext = random_hex;
    hash = sha256 random_hex;
    expires_at = now + ttl_ms;
  }

  -- The lengths are compared first, since `timingSafeEqual` wants equal ones.
  unfoldable pub guest_pay_tokens_match : Text → Text → Bool
  guest_pay_tokens_match stored presented =
      if not (length stored == length (sha256 presented))
      then false
      else text_eq stored (sha256 presented)

  abbrev matches : Option Text → Option Text → Bool
  matches (some stored) (some token) = guest_pay_tokens_match stored token
  matches _ _ = false

  unfoldable pub assert_guest_pay_token_access :
      Option Text → Option ℕ → Option Text → ℕ → Result Error (Unit {0})
  assert_guest_pay_token_access stored expires_at token now = do
    throw_if (is_absent stored) guest_pay_token_required
    throw_if (is_absent token) guest_pay_token_required
    throw_if (has_expired expires_at now) guest_pay_token_expired
    throw_if (not (matches stored token)) guest_pay_token_invalid

  -- A token that was issued with a positive time to live opens the order until, and not from, the
  -- millisecond in which it expires. The random text and its hash are not empty.
  pub issued_token_opens :
      (random_hex : Text) (now ttl_ms later : ℕ)
      → is_empty random_hex ≡ false
      → is_empty (sha256 random_hex) ≡ false
      → let i = issue_guest_pay_token random_hex now ttl_ms in
        assert_guest_pay_token_access (some i.hash) (some i.expires_at) (some i.plaintext) later
        ≡ (if leb (now + ttl_ms) later then err guest_pay_token_expired else ok tt)
  unfolding issue_guest_pay_token assert_guest_pay_token_access guest_pay_tokens_match ◌>>=◌
      throw_if
  issued_token_opens r now ttl later text hash = ground (arith, text_eq_refl (sha256 r))

  -- Access is given only where the order has a hash, a token is presented and hashes to it, neither is
  -- empty, and the time of the expiry, if there is one, is not reached.
  pub assert_guest_pay_token_access_sound :
      (stored token : Option Text) (expires_at : Option ℕ) (now : ℕ)
      → assert_guest_pay_token_access stored expires_at token now ≡ ok tt
      → (hash : Text) × (text : Text) × (stored ≡ some hash)
        × (token ≡ some text)
        × (sha256 text ≡ hash)
        × (is_empty hash ≡ false)
        × (is_empty text ≡ false)
        × ((t : ℕ) → expires_at ≡ some t → now < t)
  unfolding assert_guest_pay_token_access guest_pay_tokens_match ◌>>=◌ throw_if
  assert_guest_pay_token_access_sound none token expires_at now h = cc
  assert_guest_pay_token_access_sound (some stored) none expires_at now h = ground arith
  assert_guest_pay_token_access_sound (some stored) (some token) expires_at now h = (
    stored,
    token,
    refl,
    refl,
    ground (arith, text_eq-eq stored (sha256 token)),
    ground arith,
    ground arith,
    λ t e. ground arith,
  )
