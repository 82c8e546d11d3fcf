-- ===== src/Errors/Status.antt =====
-- pkg/common/errors/status/status.go: the status behind an error.
use fabric_sdk_go_gm.Common.{ℕ, [], Option, none, some}
use fabric_sdk_go_gm.Common.Text.{Text}
use fabric_sdk_go_gm.Errors.{GoError, status_error, multi_error, wrapped, other_error, Errors, nil}
use fabric_sdk_go_gm.Errors.Multi

pub record Status : Type 0 where
  pub group : ℕ
  pub code : ℕ
  pub message : Text
  pub details : Errors

-- The groups and codes that the code reads: `OK`, `ClientStatus` and `MultipleErrors`.
abbrev pub ok_code : ℕ
ok_code = 0

abbrev pub client_status : ℕ
client_status = 9

abbrev pub multiple_errors : ℕ
multiple_errors = 7

unfoldable pub new : ℕ → ℕ → Text → Errors → Status
new group code msg details = record { group = group; code = code; message = msg; details = details }

-- The errors' texts, the title and the separator of a multiple error, and the cause of an error.
pub record Texts : Type 0 where
  pub text_of : GoError → Text
  pub title : Text
  pub separator : Text
  pub cause : GoError → GoError

unfoldable pub from_cause : Texts → GoError → Option Status
unfolding new
from_cause t (status_error g c m d) = some (new g c m d)
from_cause t (multi_error es) =
    some (new client_status multiple_errors (Multi.error_text t.text_of t.title t.separator es) es)
from_cause t (wrapped m e) = none
from_cause t (other_error m) = none

-- `FromError`: `none` is the result that is not ok.
unfoldable pub from_error : Texts → Option GoError → Option Status
unfolding from_cause new
from_error t none = some (new 0 ok_code [] nil)
from_error t (some (status_error g c m d)) = some (new g c m d)
from_error t (some e) = from_cause t (t.cause e)
