-- ===== src/Control/Handler/Rename.antt =====
-- The name that RNFR leaves lasts for one command.
pub mod Named
pub mod Pair
use hybrid_ftp_socket.Control.Handler.Login.{password_for}
use hybrid_ftp_socket.Control.Handler.Parameters.{use_address}
use hybrid_ftp_socket.Control.Handler.Transfers.{begin, start_transfer}
use hybrid_ftp_socket.Prelude.{
  arith, ◌≢◌, ℕ, true, Option, none, some, ◌≡◌, refl, ◌⊎◌, inl, inr, [], ◌∷◌,
}
use hybrid_ftp_socket.Prelude.Numerals.{Text}
use hybrid_ftp_socket.Control.Parser.{FtpCommand}
use hybrid_ftp_socket.Control.Session.{Session, Given}
use hybrid_ftp_socket.Control.Files.{Files}
use hybrid_ftp_socket.Control.Handler.Login.{user, password, quit_cmd, noop_cmd}
use hybrid_ftp_socket.Control.Handler.Directories.{
  pwd_cmd, cwd, cdup_cmd, mkd, rmd, dele, rename_to, rnto,
}
use hybrid_ftp_socket.Control.Handler.Parameters.{type_cmd, mode_cmd, port_cmd, pasv_cmd}
use hybrid_ftp_socket.Control.Handler.Listings.{
  list_dir, nlst, size_cmd, mdtm_cmd, stat_cmd, hash_cmd, help_cmd,
}
use hybrid_ftp_socket.Control.Handler.Transfers.{cancel, named_transfer, stou_cmd, abor_cmd}
use hybrid_ftp_socket.Control.Handler.{
  Verb, v_user, v_pass, v_quit, v_noop, v_type, v_mode, v_pwd, v_cwd, v_cdup, v_mkd, v_rmd, v_dele,
  v_rnfr, v_rnto, v_list, v_nlst, v_size, v_mdtm, v_stat, v_port, v_pasv, v_retr, v_stor, v_stou,
  v_appe, v_abor, v_hash, v_help, v_other, verb_of, before, dispatch, handle,
}
use hybrid_ftp_socket.Control.Handler.Keeps.{
  logged_in_keeps, with_argument_keeps, no_argument_keeps, on_outcome_keeps,
  on_outcome_or_raise_keeps,
}
use hybrid_ftp_socket.Control.Handler.Invariant.{IsValid}

-- No name is waiting for RNTO.
abbrev IsForgotten : Session → Type 0
IsForgotten s = s.rename_from ≡ none

module _ (files : Files) (format_date : Text → Text) (given : Given) (disk : files.Disk)
    (counter : ℕ) where
  rename_to-rename_from :
      (old : Option Text) (arg : Text) (s : Session)
      → s.rename_from ≡ old
      → (old ≡ none) ⊎ ((c : ℕ) × (name : Text) × (old ≡ some (c ∷ name)))
      → IsForgotten (rename_to files old arg s disk counter).session
  unfolding rename_to
  rename_to-rename_from none arg s e n = e
  rename_to-rename_from (some []) arg s e (inl n) = absurd cc
  rename_to-rename_from (some []) arg s e (inr (c, name, n)) = absurd cc
  rename_to-rename_from (some (c ∷ old)) arg s e n =
      on_outcome_keeps files IsForgotten _ _ counter _ _ _ refl (λ a x. refl)

  rnto-rename_from :
      (arg : Text) (s : Session)
      → (s.rename_from ≡ none)
        ⊎ ((s.is_logged_in ≡ true) × (c : ℕ) × (old : Text) × (s.rename_from ≡ some (c ∷ old)))
      → IsForgotten (rnto files arg s disk counter).session
  unfolding rnto
  rnto-rename_from [] s (inl e) = logged_in_keeps files IsForgotten s disk counter _ e (λ l. refl)
  rnto-rename_from (c ∷ arg) s (inl e) =
      logged_in_keeps files IsForgotten s disk counter _ e
        (λ l. rename_to-rename_from s.rename_from (c ∷ arg) s refl (inl e))
  rnto-rename_from [] s (inr (l, d, old, e)) = simp l refl
  rnto-rename_from (c ∷ arg) s (inr (l, d, old, e)) =
      simp l (rename_to-rename_from s.rename_from (c ∷ arg) s refl (inr (d, old, e)))

  dispatch-rename_from :
      (verb : Verb) (arg : Text) (s : Session)
      → s.rename_from ≡ none
      → (verb ≡ v_rnfr → ⊥)
      → IsForgotten (dispatch files format_date verb arg given s disk counter).session
  unfolding dispatch user password password_for quit_cmd noop_cmd pwd_cmd cwd cdup_cmd mkd rmd dele
      type_cmd mode_cmd port_cmd use_address pasv_cmd list_dir nlst size_cmd mdtm_cmd stat_cmd
      hash_cmd help_cmd named_transfer stou_cmd begin start_transfer abor_cmd cancel
  dispatch-rename_from v_user arg s e n = ground arith
  dispatch-rename_from v_pass arg s e n = ground arith
  dispatch-rename_from v_quit arg s e n = ground arith
  dispatch-rename_from v_noop arg s e n = ground arith
  dispatch-rename_from v_type arg s e n = ground arith
  dispatch-rename_from v_mode arg s e n = ground arith
  dispatch-rename_from v_port arg s e n = ground arith
  dispatch-rename_from v_pasv arg s e n = ground arith
  dispatch-rename_from v_retr arg s e n = ground arith
  dispatch-rename_from v_stor arg s e n = ground arith
  dispatch-rename_from v_stou arg s e n = ground arith
  dispatch-rename_from v_appe arg s e n = ground arith
  dispatch-rename_from v_abor arg s e n = ground arith
  dispatch-rename_from v_help arg s e n = e
  dispatch-rename_from v_other arg s e n = e
  dispatch-rename_from v_rnfr arg s e n = absurd (n refl)
  dispatch-rename_from v_rnto arg s e n = rnto-rename_from arg s (inl e)
  dispatch-rename_from v_list arg s e n =
      logged_in_keeps files IsForgotten s disk counter _ e
        (λ l. on_outcome_keeps files IsForgotten s disk counter _ _ _ e (λ a x. e))
  dispatch-rename_from v_nlst arg s e n =
      logged_in_keeps files IsForgotten s disk counter _ e
        (λ l. on_outcome_keeps files IsForgotten s disk counter _ _ _ e (λ a x. e))
  dispatch-rename_from v_pwd arg s e n =
      no_argument_keeps files IsForgotten arg s disk counter _ _ e (
        logged_in_keeps files IsForgotten s disk counter _ e
          (λ l. on_outcome_or_raise_keeps files IsForgotten s disk counter _ _ e (λ a. e)))
  dispatch-rename_from v_stat [] s e n =
      logged_in_keeps files IsForgotten s disk counter _ e (λ l. e)
  dispatch-rename_from v_stat (c ∷ arg) s e n =
      logged_in_keeps files IsForgotten s disk counter _ e
        (λ l. on_outcome_or_raise_keeps files IsForgotten s disk counter _ _ e (λ a. e))
  dispatch-rename_from v_cdup arg s e n =
      no_argument_keeps files IsForgotten arg s disk counter _ _ e (
        logged_in_keeps files IsForgotten s disk counter _ e
          (λ l. on_outcome_keeps files IsForgotten s disk counter _ _ _ e (λ a x. e)))
  dispatch-rename_from v_cwd arg s e n = logged_in_keeps files IsForgotten s disk counter _ e (λ l.
      with_argument_keeps files IsForgotten arg s disk counter _ _ e
        (on_outcome_keeps files IsForgotten s _ counter _ _ _ e (λ a x. e)))
  dispatch-rename_from v_mkd arg s e n = logged_in_keeps files IsForgotten s disk counter _ e (λ l.
      with_argument_keeps files IsForgotten arg s disk counter _ _ e
        (on_outcome_keeps files IsForgotten s _ counter _ _ _ e (λ a x. e)))
  dispatch-rename_from v_rmd arg s e n = logged_in_keeps files IsForgotten s disk counter _ e (λ l.
      with_argument_keeps files IsForgotten arg s disk counter _ _ e
        (on_outcome_keeps files IsForgotten s _ counter _ _ _ e (λ a x. e)))
  dispatch-rename_from v_dele arg s e n = logged_in_keeps files IsForgotten s disk counter _ e (λ l.
      with_argument_keeps files IsForgotten arg s disk counter _ _ e
        (on_outcome_keeps files IsForgotten s _ counter _ _ _ e (λ a x. e)))
  dispatch-rename_from v_size arg s e n = logged_in_keeps files IsForgotten s disk counter _ e (λ l.
      with_argument_keeps files IsForgotten arg s disk counter _ _ e
        (on_outcome_keeps files IsForgotten s _ counter _ _ _ e (λ a x. e)))
  dispatch-rename_from v_mdtm arg s e n = logged_in_keeps files IsForgotten s disk counter _ e (λ l.
      with_argument_keeps files IsForgotten arg s disk counter _ _ e
        (on_outcome_keeps files IsForgotten s _ counter _ _ _ e (λ a x. e)))
  dispatch-rename_from v_hash arg s e n = logged_in_keeps files IsForgotten s disk counter _ e (λ l.
      with_argument_keeps files IsForgotten arg s disk counter _ _ e
        (on_outcome_keeps files IsForgotten s _ counter _ _ _ e (λ a x. e)))

  -- A session that satisfies the invariant: behind every command but RNFR no name
  -- waits for RNTO.
  pub handle-rename_from :
      (command : FtpCommand) (s : Session)
      → IsValid files s
      → verb_of command.name ≢ v_rnfr
      → (handle files format_date command given s disk counter).session.rename_from ≡ none
  unfolding handle dispatch rnto before
  handle-rename_from command s v n = by_verb (verb_of command.name) n
    where
      by_verb :
          (verb : Verb)
          → verb ≢ v_rnfr
          → IsForgotten
              (dispatch files format_date verb command.argument given
                (before verb s)
                disk
                counter).session
      by_verb v_rnto n = rnto-rename_from command.argument s v.renaming
      by_verb verb n =
          dispatch-rename_from verb command.argument (record s { rename_from = none }) refl n
