-- ===== src/Mcp/Ipc/Listen.antt =====
-- mcp_ipc_transport_posix.cc: the listening socket, over the results of the system calls.
pub mod Safety
pub mod Guards
mod Tests
use browserd.Shared.{
  ℕ, ◌+◌, ◌/◌, ◌%◌, ◌<◌, ◌≡◌, ◌≢◌, refl, Bool, true, false, not, ◌&&◌, ◌||◌, Option, none, some,
  List, [], ◌∷◌, ◌++◌, Text, is_empty, eqb, ltb, leb, length, arith, if◌then◌else◌, if_elim,
  of_not-false, of_not-true,
}

-- A `struct stat`: the two tests of its type, its permission bits and its owner.
pub record Stat : Type 0 where
  pub is_dir : Bool
  pub is_sock : Bool
  pub mode : ℕ
  pub uid : ℕ

-- How `lstat`, `connect` and `unlink` end; `ENOENT` and `ECONNREFUSED` are told from other errors.
pub data Lstat : Type 0 where
  found : Stat → Lstat
  no_entry : Lstat
  failed : Lstat

pub data Connect : Type 0 where
  connected : Connect
  refused : Connect
  gone : Connect
  broken : Connect

pub data Unlink : Type 0 where
  removed : Unlink
  missing : Unlink
  denied : Unlink

-- What the calls of the operating system and of base give, for one path.
pub record System : Type 0 where
  pub is_absolute : Bool
  pub directory_exists : Bool
  pub parent_stat : Option Stat
  pub geteuid : ℕ
  pub sun_path_size : ℕ
  pub lstat : Lstat
  pub probe_fd : Option ℕ
  pub connect : Connect
  pub unlink : Unlink
  pub listener_fd : Option ℕ
  pub binds : Bool
  pub listens : Bool

-- What is done to descriptors and to the path.
pub data Effect : Type 0 where
  opens : ℕ → Effect
  closes : ℕ → Effect
  unlinks : Effect

module _ (sys : System) (path : Text) where
  pub fill_unix_address : Bool
  fill_unix_address = not (is_empty path || leb sys.sun_path_size (length path))

  -- `S_IWGRP | S_IWOTH` is 16 + 2.
  abbrev pub group_or_other_writable : ℕ → Bool
  group_or_other_writable mode = eqb (mode / 16 % 2) 1 || eqb (mode / 2 % 2) 1

  pub is_safe_parent_directory : Bool
  is_safe_parent_directory = if not sys.directory_exists then false else elim sys.parent_stat [
    | none ↦ false
    | some stat ↦
        if not stat.is_dir
        then false
        else if not (eqb stat.uid sys.geteuid)
        then false
        else if group_or_other_writable stat.mode
        then false
        else true
  ]

  pub data ExistingSocketState : Type 0 where
    absent : ExistingSocketState
    active : ExistingSocketState
    stale : ExistingSocketState
    invalid : ExistingSocketState
    error : ExistingSocketState

  abbrev probed : Connect → ExistingSocketState
  probed connected = active
  probed refused = stale
  probed gone = stale
  probed broken = error

  -- The state, and the probe's descriptor opened and closed.
  pub probe_existing_socket : ExistingSocketState × List Effect
  unfolding fill_unix_address
  probe_existing_socket = elim sys.lstat [
    | no_entry ↦ (absent, [])
    | failed ↦ (error, [])
    | found stat ↦
        if not stat.is_sock
        then (invalid, [])
        else if not fill_unix_address
        then (error, [])
        else elim sys.probe_fd [
          | none ↦ (error, [])
          | some fd ↦ (probed sys.connect, opens fd ∷ closes fd ∷ [])
        ]
  ]

  -- From `socket` to the end.
  pub bind_and_listen : List Effect → Option ℕ × List Effect
  bind_and_listen log = elim sys.listener_fd [
    | none ↦ (none, log)
    | some fd ↦
        if not sys.binds
        then (none, log ++ opens fd ∷ closes fd ∷ [])
        else if not sys.listens
        then (none, log ++ opens fd ∷ closes fd ∷ unlinks ∷ [])
        else (some fd, log ++ opens fd ∷ [])
  ]

  -- The switch on the state of the path.
  pub replace_existing : ExistingSocketState → List Effect → Option ℕ × List Effect
  unfolding bind_and_listen
  replace_existing absent log = bind_and_listen log
  replace_existing stale log = elim sys.unlink [
    | removed ↦ bind_and_listen (log ++ unlinks ∷ [])
    | missing ↦ bind_and_listen log
    | denied ↦ (none, log)
  ]
  replace_existing active log = (none, log)
  replace_existing invalid log = (none, log)
  replace_existing error log = (none, log)

  pub create_listening_socket : Option ℕ × List Effect
  unfolding is_safe_parent_directory fill_unix_address probe_existing_socket replace_existing
  create_listening_socket =
      if not sys.is_absolute
      then (none, [])
      else if not is_safe_parent_directory
      then (none, [])
      else if not fill_unix_address
      then (none, [])
      else replace_existing probe_existing_socket.0 probe_existing_socket.1
