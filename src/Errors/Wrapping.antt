-- ===== src/Errors/Wrapping.antt =====
-- What stays visible of an error that is wrapped.
use vm_file_restore_operator.Base.{◌≡◌, refl, String, true, false}
use vm_file_restore_operator.Errors.{
  Error, ErrorKind, plain, transient, not_found, already_exists, conflict, wrap, is_transient,
  is_not_found, is_already_exists, new_transient_error,
}

kinds :
    (k : ErrorKind) (m : String)
    → let e : Error = record { kind = k; message = m } in
      (is_transient (wrap "" e) ≡ false)
      × (is_not_found (wrap "" e) ≡ is_not_found e)
      × (is_already_exists (wrap "" e) ≡ is_already_exists e)
unfolding is_transient wrap
kinds plain m = (refl, refl, refl)
kinds transient m = (refl, refl, refl)
kinds not_found m = (refl, refl, refl)
kinds already_exists m = (refl, refl, refl)
kinds conflict m = (refl, refl, refl)

-- A new transient error is transient, and a wrapped error never is, while a missing and an existing
-- object still show through the wrapping.
pub is_transient-wrap :
    (context m : String) (e : Error)
    → (is_transient (new_transient_error m) ≡ true)
      × (is_transient (wrap context e) ≡ false)
      × (is_not_found (wrap context e) ≡ is_not_found e)
      × (is_already_exists (wrap context e) ≡ is_already_exists e)
unfolding is_transient wrap new_transient_error
is_transient-wrap context m e = let (a, b, c) = kinds e.kind e.message in (refl, a, b, c)
