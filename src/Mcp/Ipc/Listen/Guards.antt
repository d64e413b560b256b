-- ===== src/Mcp/Ipc/Listen/Guards.antt =====
-- mcp_ipc_transport_posix.cc: what holds of a path that is listened on.
use browserd.Shared.{
  ◌/◌, ◌%◌, Option_elim, if_elim, ℕ, ◌<◌, ◌≡◌, ◌≢◌, refl, ◌⊎◌, inl, inr, true, not, Option, some,
  List, [], Text, length, arith, if_elim, of_not-false, Option-cases, false≢true,
}
use browserd.Mcp.Ipc.Listen

Lstat_elim :
    {A : Type 0} (P : A → Type 0) (l : Listen.Lstat) {a b : A} {f : Listen.Stat → A}
    → (l ≡ Listen.no_entry → P a)
    → (l ≡ Listen.failed → P b)
    → ((s : Listen.Stat) → l ≡ Listen.found s → P (f s))
    → P (elim l [ Listen.no_entry ↦ a | Listen.failed ↦ b | Listen.found s ↦ f s ])
Lstat_elim P Listen.no_entry p q r = p refl
Lstat_elim P Listen.failed p q r = q refl
Lstat_elim P (Listen.found s) p q r = r s refl

module _ (sys : Listen.System) (path : Text) where
  -- A directory of the user's own, which no other can write to.
  pub record IsPrivate (stat : Listen.Stat) : Type 0 where
    pub parent : sys.parent_stat ≡ some stat
    pub directory : stat.is_dir ≡ true
    pub owner : stat.uid ≡ sys.geteuid
    pub group_cannot_write : stat.mode / 16 % 2 ≡ 0
    pub others_cannot_write : stat.mode / 2 % 2 ≡ 0

  is_safe_parent_directory-IsPrivate :
      Listen.is_safe_parent_directory sys path ≡ true → (stat : Listen.Stat) × IsPrivate stat
  unfolding Listen.is_safe_parent_directory
  is_safe_parent_directory-IsPrivate h = elim (Option-cases sys.parent_stat) [
    | inl e ↦ absurd (ground (arith, h, e))
    | inr (stat, e) ↦ (
      stat,
      record {
        parent = e;
        directory = ground (arith, h, e);
        owner = ground (arith, h, e);
        group_cannot_write = ground (arith, h, e);
        others_cannot_write = ground (arith, h, e);
      },
    )
  ]

  -- There is nothing at the path, or a socket that refused a connection or was gone by then.
  abbrev pub IsFree : Type 0
  IsFree =
      (sys.lstat ≡ Listen.no_entry)
      ⊎ ((stat : Listen.Stat) × (sys.lstat ≡ Listen.found stat)
          × (stat.is_sock ≡ true)
          × ((sys.connect ≡ Listen.refused) ⊎ (sys.connect ≡ Listen.gone)))

  -- The path is absolute and fits, its directory is private, and no live server has it.
  pub record IsListening : Type 0 where
    pub absolute : sys.is_absolute ≡ true
    pub private : (stat : Listen.Stat) × IsPrivate stat
    pub nonempty : path ≢ []
    pub fits : length path < sys.sun_path_size
    pub free : IsFree

  -- What a state says of the path.
  Says : Listen.ExistingSocketState sys path → Type 0
  Says Listen.absent = IsFree
  Says Listen.stale = IsFree
  Says Listen.active = Unit
  Says Listen.invalid = Unit
  Says Listen.error = Unit

  probed-Says :
      (stat : Listen.Stat)
      → sys.lstat ≡ Listen.found stat
      → stat.is_sock ≡ true
      → (c : Listen.Connect) → sys.connect ≡ c
      → Says (Listen.probed sys path c)
  unfolding Says
  probed-Says stat l k Listen.connected e = tt
  probed-Says stat l k Listen.refused e = inr (stat, l, k, inl e)
  probed-Says stat l k Listen.gone e = inr (stat, l, k, inr e)
  probed-Says stat l k Listen.broken e = tt

  probe_existing_socket-Says : Says (Listen.probe_existing_socket sys path).0
  unfolding Listen.probe_existing_socket Says
  probe_existing_socket-Says =
      Lstat_elim Told sys.lstat (λ l. inl l) (λ l. tt)
        (λ stat l.
          if_elim Told (not stat.is_sock) (λ _. tt)
            (λ sock.
              if_elim Told (not (Listen.fill_unix_address sys path)) (λ _. tt)
                (λ _.
                  Option_elim Told sys.probe_fd (λ _. tt)
                    (λ fd _. probed-Says stat l (of_not-false _ sock) sys.connect refl))))
    where
      Told : Listen.ExistingSocketState sys path × List Listen.Effect → Type 0
      Told r = Says r.0

  replace_existing-free :
      (state : Listen.ExistingSocketState sys path) (log : List Listen.Effect) (fd : ℕ)
      → Says state
      → (Listen.replace_existing sys path state log).0 ≡ some fd
      → IsFree
  unfolding Listen.replace_existing Says
  replace_existing-free Listen.absent log fd free e = free
  replace_existing-free Listen.stale log fd free e = free
  replace_existing-free Listen.active log fd free e = cc
  replace_existing-free Listen.invalid log fd free e = cc
  replace_existing-free Listen.error log fd free e = cc

  Checked : Option ℕ × List Listen.Effect → Type 0
  Checked r = (fd : ℕ) → r.0 ≡ some fd → IsListening

  -- A listener that is returned is on an absolute path that fits, in a directory that only the user can
  -- write to, and takes no path from a server that answers or from a file that is no socket.
  pub create_listening_socket-IsListening :
      (fd : ℕ) → (Listen.create_listening_socket sys path).0 ≡ some fd → IsListening
  unfolding Listen.create_listening_socket Listen.fill_unix_address Checked
  create_listening_socket-IsListening =
      if_elim Checked (not sys.is_absolute) (λ _ fd e. cc)
        (λ absolute.
          if_elim Checked (not (Listen.is_safe_parent_directory sys path)) (λ _ fd e. cc)
            (λ safe.
              if_elim Checked (not (Listen.fill_unix_address sys path)) (λ _ fd e. cc)
                (λ fits fd e. record {
                  absolute = of_not-false sys.is_absolute absolute;
                  private =
                      is_safe_parent_directory-IsPrivate
                        (of_not-false (Listen.is_safe_parent_directory sys path) safe);
                  nonempty = λ k. false≢true (ground (arith, fits, k));
                  fits = ground (arith, fits);
                  free =
                      replace_existing-free (Listen.probe_existing_socket sys path).0
                        (Listen.probe_existing_socket sys path).1 fd probe_existing_socket-Says e;
                })))
