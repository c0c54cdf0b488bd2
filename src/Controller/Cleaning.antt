-- ===== src/Controller/Cleaning.antt =====
-- `cleanup` does not panic: it tests the mount path before it asks for the command.
use vm_file_restore_operator.Base.{◌≡◌, refl, sym, subst, String, false, none}
use vm_file_restore_operator.Base.Texts.{is_empty}
use vm_file_restore_operator.Types.{FileRestore, Instance}
use vm_file_restore_operator.Monad.{Action, pure, ◌>>=◌, ◌>>◌, on_option}
use vm_file_restore_operator.Monad.Rules.{
  Ends, Keeps, Ends-bind, Ends-seq, Ends-given, Ends-on_result, Ends-if,
}
use vm_file_restore_operator.Api.{Api}
use vm_file_restore_operator.Ssh.{build_cleanup_command}
use vm_file_restore_operator.Controller.State.{St, Reply, stop, stop_after, lift}
use vm_file_restore_operator.Controller.Access.{SshEnd, run_cleanup, ssh_cleanup, cleanup}

module _ (api : Api) (namespace : String) where
  open api use {World}

  abbrev Free : World → Type 0
  Free w = Unit {0}

  free : {A : Type 0} (m : Action World A) → Keeps Free m
  free m = record { at = λ w h. tt }

  abbrev Sound : SshEnd api namespace → World → Type 0
  Sound e w = e.panic ≡ none

  pure-Sound : (e : SshEnd api namespace) → e.panic ≡ none → Ends Free Sound (pure e)
  unfolding pure
  pure-Sound e h = record { at = λ w _. h }

  run_cleanup-Sound :
      (v : FileRestore) (i : Instance) (c : api.Connection)
      → is_empty v.status.mount_path ≡ false
      → Ends Free Sound (run_cleanup api namespace v i c)
  unfolding run_cleanup build_cleanup_command on_option
  run_cleanup-Sound v i c mounted = rw mounted (Ends-seq _ _ (free _) (pure-Sound _ refl))

  ssh_cleanup-Sound :
      (v : FileRestore) (i : Instance) → Ends Free Sound (ssh_cleanup api namespace v i)
  unfolding ssh_cleanup
  ssh_cleanup-Sound v i =
      search (Ends-bind, Ends-on_result, Ends-if, free, pure-Sound, run_cleanup-Sound) depth 20

  -- The panic of the SSH part is the panic of the whole.
  rest-None :
      (v : FileRestore) (e : SshEnd api namespace) (m : Action World (Unit {0}))
      (n : Action World (Unit {0}))
      → Ends (Sound e) (λ r _. r ≡ none) (do m; n; pure e.panic)
  unfolding pure ◌>>=◌ ◌>>◌
  rest-None v e m n = record { at = λ w h. h }

  cleanup-None : (v : FileRestore) → Ends Free (λ r _. r ≡ none) (cleanup api namespace v)
  unfolding cleanup
  cleanup-None v = Ends-bind _ _ (free _) λ vmi.
      Ends-given _ _ (Ends-on_result vmi _ _ (λ e. pure-Sound _ refl) (λ i. ssh_cleanup-Sound v i))
        (λ e. rest-None v e _ _)

  pub cleanup-quiet : (v : FileRestore) (w : World) → (cleanup api namespace v w).0 ≡ none
  cleanup-quiet v w = (cleanup-None v).at w tt

  -- So a function that ends with it ends as if it did nothing else than what it keeps.
  pub Ends-cleanup :
      {P : St World → Type 0} {Q : Reply → St World → Type 0} (v : FileRestore)
      → Keeps P (lift (cleanup api namespace v))
      → Ends P Q (pure stop)
      → Ends P Q (do panic ← lift (cleanup api namespace v); pure (stop_after panic))
  unfolding lift ◌>>=◌ pure stop_after
  Ends-cleanup {Q = Q} v kept end = record {
    at = λ s h.
        let s' : St World = record s { world = (cleanup api namespace v s.world).1 } in
        subst (λ p. Q (stop_after p) s') (sym (cleanup-quiet v s.world)) (end.at s' (kept.at s h));
  }

  -- What follows on a panic is not reached.
  pub Ends-on_cleanup :
      {Q : Reply → World → Type 0} (v : FileRestore) (n : Action World Reply)
      (f : String → Action World Reply)
      → Ends Free Q n
      → Ends Free Q (do panic ← cleanup api namespace v; on_option panic n f)
  unfolding ◌>>=◌ on_option
  Ends-on_cleanup {Q = Q} v n f end = record {
    at = λ w h.
        let w' = (cleanup api namespace v w).1 in
        subst (λ p. Q (on_option p n f w').0 (on_option p n f w').1) (sym (cleanup-quiet v w))
          (end.at w' tt);
  }
