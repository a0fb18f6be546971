-- ===== src/Account/Errors.antt =====
-- The coded failures of the account service (runtime/account/service.go) and results that may fail.
pub data AccountError : Type 0 where
  invalid_request username_invalid email_invalid password_weak username_taken : AccountError
  email_taken email_not_verified verification_required verification_invalid : AccountError
  verification_expired verification_rate mail_unavailable unauthorized unavailable : AccountError

pub data Result {ℓ} (A : Type ℓ) : Type ℓ where
  ok : A → Result A
  err : AccountError → Result A
