-- ===== src/Errors.antt =====
-- pkg/common/errors: the error values of the client, their status, and the retries on them. An error
-- of another package is `other_error`; what wraps an error is `wrapped`. The text of an error and
-- its cause (`errors.Cause` of github.com/pkg/errors) are arguments of the definitions that use them.
pub mod Tests
pub mod Multi
pub mod Status
pub mod Retry
pub mod Backoff
use fabric_sdk_go_gm.Common.{ℕ}
use fabric_sdk_go_gm.Common.Text.{Text}

-- `status_error` has the fields of *status.Status, `multi_error` the elements of multi.Errors. A
-- code is an int32, given by its bit pattern. The details of a status are kept as errors only.
mutual
  pub data GoError : Type 0 where
    status_error : ℕ → ℕ → Text → Errors → GoError
    multi_error : Errors → GoError
    wrapped : Text → GoError → GoError
    other_error : Text → GoError

  pub data Errors : Type 0 where
    nil : Errors
    cons : GoError → Errors → Errors
