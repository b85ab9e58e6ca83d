-- ===== src/Result.antt =====
-- src/include/common/error_code.h and src/include/common/result.h: error codes, results, and their
-- accessors. `unwrap` throws on the wrong case, which is `none` here.
use se3331_labs.Common.{Bool, true, false, Option, none, some}

pub data ErrorType : Type 0 where
  done : ErrorType
  invalid_arg : ErrorType
  out_of_resource : ErrorType
  invalid : ErrorType
  not_exist : ErrorType
  already_exist : ErrorType
  not_empty : ErrorType

pub data Result {ℓ} (A : Type ℓ) : Type ℓ where
  ok : A → Result A
  err : ErrorType → Result A

module _ {ℓ} {A : Type ℓ} where
  unfoldable pub is_ok : Result A → Bool
  is_ok (ok a) = true
  is_ok (err e) = false

  unfoldable pub is_err : Result A → Bool
  is_err (ok a) = false
  is_err (err e) = true

  unfoldable pub unwrap : Result A → Option A
  unwrap (ok a) = some a
  unwrap (err e) = none

  unfoldable pub unwrap_error : Result A → Option ErrorType
  unwrap_error (ok a) = none
  unwrap_error (err e) = some e
