-- ===== src/Errors.antt =====
-- internal/controller/errors.go, with the errors of the API server that the operator tells apart.
pub mod Wrapping
use vm_file_restore_operator.Base.{
  ℕ, ◌==◌, String, ◌<>◌, Bool, true, false, Option, none, if◌then◌else◌,
}

-- What `errors.IsNotFound` and its like, and the type assertion of `IsTransient`, can see.
pub data ErrorKind : Type 0 where
  plain transient not_found already_exists conflict : ErrorKind

pub record Error : Type 0 where
  pub kind : ErrorKind
  pub message : String

pub data Result {ℓ} (A : Type ℓ) : Type ℓ where
  ok : A → Result A
  err : Error → Result A

-- `fmt.Errorf(message)`
abbrev pub errorf : String → Error
errorf m = record { kind = plain; message = m }

-- `NewTransientError`
unfoldable pub new_transient_error : String → Error
new_transient_error m = record { kind = transient; message = m }

-- `IsTransient`: an assertion on the outermost type.
unfoldable pub is_transient : Error → Bool
is_transient e = elim e.kind [ transient ↦ true | _ ↦ false ]

-- `(*TransientError).Format`, with `strconv.Quote` as a parameter; `has_plus` is the flag `+`. The
-- verb is a letter by its code.
unfoldable pub format : (quote : String → String) → Bool → ℕ → String → String
format quote has_plus verb msg =
    if verb == b'v'
    then (if has_plus then "transient error: " <> msg else msg)
    else if verb == b's'
    then msg
    else if verb == b'q'
    then quote msg
    else ""

-- `(*TransientError).Error` and `(*TransientError).Unwrap`
abbrev pub error_text : String → String
error_text msg = msg

abbrev pub unwrap : String → Option Error
unwrap msg = none

-- The predicates of `k8s.io/apimachinery/pkg/api/errors` look through wrapping.
abbrev pub is_not_found : Error → Bool
is_not_found e = elim e.kind [ not_found ↦ true | _ ↦ false ]

abbrev pub is_already_exists : Error → Bool
is_already_exists e = elim e.kind [ already_exists ↦ true | _ ↦ false ]

abbrev pub is_conflict : Error → Bool
is_conflict e = elim e.kind [ conflict ↦ true | _ ↦ false ]

abbrev wrapped_kind : ErrorKind → ErrorKind
wrapped_kind transient = plain
wrapped_kind k = k

-- `fmt.Errorf("context: %w", err)`, which formats the error with `%v`. The wrapped error is no `*TransientError` any more, while the
-- API server's reason still shows through.
unfoldable pub wrap : String → Error → Error
wrap context e = record { kind = wrapped_kind e.kind; message = context <> (": " <> e.message) }
