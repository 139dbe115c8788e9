-- ===== src/Control/Handler/Rename/Pair.antt =====
-- RNTO renames what the command directly before it has named.
use hybrid_ftp_socket.Prelude.{ℕ, none, some, ◌≡◌, ◌≢◌, refl, sym, subst, ap, ◌∙◌, ◌⊎◌, inl, inr}
use hybrid_ftp_socket.Prelude.Numerals.{Text}
use hybrid_ftp_socket.Control.Parser.{FtpCommand}
use hybrid_ftp_socket.Control.Session.{Session, Given}
use hybrid_ftp_socket.Control.Files.{Files}
use hybrid_ftp_socket.Control.Handler.Base.{Handled}
use hybrid_ftp_socket.Control.Handler.Invariant.{IsValid}
use hybrid_ftp_socket.Control.Handler.Rename.{handle-rename_from}
use hybrid_ftp_socket.Control.Handler.{Verb, v_rnfr, v_rnto, verb_of, before, dispatch, handle}
use hybrid_ftp_socket.Control.Handler.Rename.Named.{IsNamed, rnfr-IsNamed, rnto-disk}

is_rnfr : (verb : Verb) → (verb ≡ v_rnfr) ⊎ (verb ≢ v_rnfr)
is_rnfr v_rnfr = inl refl
is_rnfr _ = inr (λ e. absurd cc)

module _ (files : Files) (format_date : Text → Text) where
  named-IsNamed :
      (first : FtpCommand) (given : Given) (s : Session) (disk : files.Disk) (counter : ℕ)
      → verb_of first.name ≡ v_rnfr
      → ((handle files format_date first given s disk counter).session.rename_from ≡ none)
        ⊎ IsNamed files first.argument s disk (handle files format_date first given s disk counter)
  unfolding handle dispatch before
  named-IsNamed first given s disk counter e =
      subst
        (λ verb.
          ((dispatch files format_date verb first.argument given (before verb s) disk
              counter).session.rename_from
            ≡ none)
          ⊎ IsNamed files first.argument s disk
              (dispatch files format_date verb first.argument given (before verb s) disk counter))
        (sym e)
        (by_case _
          (rnfr-IsNamed files first.argument (record s { rename_from = none }) disk counter refl))
    where
      by_case :
          (h : Handled files.Disk)
          → ((h.session.rename_from ≡ none)
              ⊎ IsNamed files first.argument (record s { rename_from = none }) disk h)
          → (h.session.rename_from ≡ none) ⊎ IsNamed files first.argument s disk h
      by_case h (inl e) = inl e
      by_case h (inr n) = inr (record {
        path = n.path;
        found = n.found;
        told = n.told;
        kept = n.kept;
        same_dir = n.same_dir;
        same_disk = n.same_disk;
      })

  second-disk :
      (second : FtpCommand) (given : Given) (s : Session) (disk : files.Disk) (counter : ℕ)
      → verb_of second.name ≡ v_rnto
      → ((handle files format_date second given s disk counter).disk ≡ disk)
        ⊎ ((name : Text) × (s.rename_from ≡ some name)
            × ((handle files format_date second given s disk counter).disk
                ≡ (files.rename disk s.current_dir name second.argument).0))
  unfolding handle dispatch before
  second-disk second given s disk counter e =
      subst
        (λ verb.
          ((dispatch files format_date verb second.argument given (before verb s) disk counter).disk
            ≡ disk)
          ⊎ ((name : Text) × (s.rename_from ≡ some name)
              × ((dispatch files format_date verb second.argument given (before verb s) disk
                    counter).disk
                  ≡ (files.rename disk s.current_dir name second.argument).0)))
        (sym e) (rnto-disk files second.argument s disk counter)

  -- What two commands, of which the second is RNTO, have done to the disk that the first one left.
  pub record IsRenamed (first second : FtpCommand) (s : Session) (disk : files.Disk)
      (h h' : Handled files.Disk) : Type 0 where
    pub verb : verb_of first.name ≡ v_rnfr
    pub named : IsNamed files first.argument s disk h
    pub renamed : h'.disk ≡ (files.rename disk s.current_dir first.argument second.argument).0

  second-IsRenamed :
      (first second : FtpCommand) (given : Given) (s : Session) (disk : files.Disk)
      (h h' : Handled files.Disk)
      → (h.session.rename_from ≡ none)
        ⊎ ((verb_of first.name ≡ v_rnfr) × IsNamed files first.argument s disk h)
      → (h'.disk ≡ h.disk)
        ⊎ ((name : Text) × (h.session.rename_from ≡ some name)
            × (h'.disk ≡ (files.rename h.disk h.session.current_dir name second.argument).0))
      → (h'.disk ≡ h.disk) ⊎ IsRenamed first second s disk h h'
  second-IsRenamed first second given s disk h h' left (inl same) = inl same
  second-IsRenamed first second given s disk h h' (inl n) (inr (name, e, renamed)) = absurd cc
  second-IsRenamed first second given s disk h h' (inr (verb, n)) (inr (name, e, renamed)) =
      let same : name ≡ first.argument = some_injective name first.argument (sym e ∙ n.kept) in
      inr (record {
        verb = verb;
        named = n;
        renamed =
            renamed
            ∙ ap (λ d. (files.rename d h.session.current_dir name second.argument).0) n.same_disk
            ∙ ap (λ d. (files.rename disk d name second.argument).0) n.same_dir
            ∙ ap (λ a. (files.rename disk s.current_dir a second.argument).0) same;
      })
    where
      some_injective : (a b : Text) → some a ≡ some b → a ≡ b
      some_injective a b e = cc

  -- For a session that satisfies the invariant: RNTO changes the disk only by the renaming of the
  -- name that the command directly before it has given, in the directory of that command, and only
  -- if that command was RNFR, found the file, and was answered with 350.
  pub handle-IsRenamed :
      (first second : FtpCommand) (given later : Given) (s : Session) (disk : files.Disk)
      (counter : ℕ)
      → IsValid files s
      → verb_of second.name ≡ v_rnto
      → ((handle files format_date second later
            (handle files format_date first given s disk counter).session
            (handle files format_date first given s disk counter).disk
            (handle files format_date first given s disk counter).counter).disk
          ≡ (handle files format_date first given s disk counter).disk)
        ⊎ IsRenamed first second s disk (handle files format_date first given s disk counter) (
            handle files format_date second later
              (handle files format_date first given s disk counter).session
              (handle files format_date first given s disk counter).disk
              (handle files format_date first given s disk counter).counter)
  handle-IsRenamed first second given later s disk counter v to =
      let h = handle files format_date first given s disk counter in
      second-IsRenamed first second given s disk h
        (handle files format_date second later h.session h.disk h.counter)
        (by_verb h (is_rnfr (verb_of first.name)) (named-IsNamed first given s disk counter)
          (handle-rename_from files format_date given disk counter first s v))
        (second-disk second later h.session h.disk h.counter to)
    where
      by_verb :
          (h : Handled files.Disk)
          → ((verb_of first.name ≡ v_rnfr) ⊎ (verb_of first.name ≢ v_rnfr))
          → (verb_of first.name ≡ v_rnfr
              → (h.session.rename_from ≡ none) ⊎ IsNamed files first.argument s disk h)
          → (verb_of first.name ≢ v_rnfr → h.session.rename_from ≡ none)
          → (h.session.rename_from ≡ none)
            ⊎ ((verb_of first.name ≡ v_rnfr) × IsNamed files first.argument s disk h)
      by_verb h (inr other) named forgotten = inl (forgotten other)
      by_verb h (inl e) named forgotten = elim (named e) [ inl n ↦ inl n | inr n ↦ inr (e, n) ]
