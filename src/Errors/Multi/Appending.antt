-- ===== src/Errors/Multi/Appending.antt =====
-- multi.go: what `Append` keeps of its two errors.
use fabric_sdk_go_gm.Common.{◌≡◌, refl, ◌≢◌, Option, none, some}
use fabric_sdk_go_gm.Errors.{
  GoError, status_error, multi_error, wrapped, other_error, Errors, nil, cons,
}
use fabric_sdk_go_gm.Errors.Multi.{append, append_error, new, collect, to_error, snoc}

-- All errors that stand behind an error.
abbrev pub flatten : Option GoError → Errors
flatten none = nil
flatten (some (multi_error m)) = m
flatten (some (status_error g c t d)) = cons (status_error g c t d) nil
flatten (some (wrapped t e)) = cons (wrapped t e) nil
flatten (some (other_error t)) = cons (other_error t) nil

abbrev pub add : Errors → Option GoError → Errors
add m none = m
add m (some e) = snoc m e

-- `Append` to an error that is not nil keeps all errors behind it, in their order, and puts the new
-- error, if it is not nil, at the end.
pub append-flatten :
    (errs err : Option GoError) → errs ≢ none → flatten (append errs err) ≡ add (flatten errs) err
unfolding append append_error new collect to_error snoc
append-flatten none err h = absurd (h refl)
append-flatten (some (multi_error m)) none h = refl
append-flatten (some (multi_error m)) (some e) h = refl
append-flatten (some (status_error g c t d)) none h = refl
append-flatten (some (status_error g c t d)) (some e) h = refl
append-flatten (some (wrapped t f)) none h = refl
append-flatten (some (wrapped t f)) (some e) h = refl
append-flatten (some (other_error t)) none h = refl
append-flatten (some (other_error t)) (some e) h = refl
