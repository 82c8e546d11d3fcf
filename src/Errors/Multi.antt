-- ===== src/Errors/Multi.antt =====
-- pkg/common/errors/multi/multi.go. A nil error is `none`.
pub mod Appending
use fabric_sdk_go_gm.Common.{List, [], ◌∷◌, ◌++◌, Option, none, some}
use fabric_sdk_go_gm.Common.Text.{Text}
use fabric_sdk_go_gm.Errors.{
  GoError, status_error, multi_error, wrapped, other_error, Errors, nil, cons,
}

-- The non-nil errors of a list, and the errors of a list.
unfoldable pub collect : List (Option GoError) → Errors
collect [] = nil
collect (none ∷ es) = collect es
collect (some e ∷ es) = cons e (collect es)

-- `Errors.ToError`, and the end of `New`.
unfoldable pub to_error : Errors → Option GoError
to_error nil = none
to_error (cons e nil) = some e
to_error (cons e (cons f es)) = some (multi_error (cons e (cons f es)))

unfoldable pub new : List (Option GoError) → Option GoError
unfolding collect to_error
new errs = to_error (collect errs)

unfoldable pub snoc : Errors → GoError → Errors
snoc nil e = cons e nil
snoc (cons f es) e = cons f (snoc es e)

unfoldable pub append_error : Errors → Option GoError → Option GoError
unfolding snoc
append_error m none = some (multi_error m)
append_error m (some e) = some (multi_error (snoc m e))

-- `Append`: only an error that is an Errors object is extended.
unfoldable pub append : Option GoError → Option GoError → Option GoError
unfolding append_error new
append (some (multi_error m)) err = append_error m err
append errs err = new (errs ∷ err ∷ [])

-- `Errors.Error`: " - " and "Multiple errors occurred:" are arguments, with the elements' texts.
unfoldable pub join_rest : (GoError → Text) → Text → Errors → Text
join_rest text_of sep nil = []
join_rest text_of sep (cons e es) = sep ++ (text_of e ++ join_rest text_of sep es)

unfoldable pub error_text : (GoError → Text) → Text → Text → Errors → Text
unfolding join_rest
error_text text_of title sep nil = []
error_text text_of title sep (cons e nil) = text_of e
error_text text_of title sep (cons e (cons f es)) =
    title ++ join_rest text_of sep (cons e (cons f es))
