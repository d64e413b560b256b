-- ===== src/Mcp/Ipc/Listen/Tests.antt =====
-- A stale socket in a private directory is replaced.
use browserd.Shared.{ap, ℕ, List, ◌≡◌, refl, true, false, Option, some, [], ◌∷◌, Text, codes}
use browserd.Mcp.Ipc.Listen
use browserd.Mcp.Ipc.Listen.Safety
use browserd.Mcp.Ipc.Listen.Guards

abbrev sys : Listen.System
sys = record {
  is_absolute = true;
  directory_exists = true;
  parent_stat = some (record { is_dir = true; is_sock = false; mode = 448; uid = 1000 });
  geteuid = 1000;
  sun_path_size = 108;
  lstat = Listen.found (record { is_dir = false; is_sock = true; mode = 384; uid = 1000 });
  probe_fd = some 7;
  connect = Listen.refused;
  unlink = Listen.removed;
  listener_fd = some 8;
  binds = true;
  listens = true;
}

abbrev path : Text
path = codes "/run/user/1000/browserd.sock"

stale_socket :
    Listen.create_listening_socket sys path
    ≡ (some 8, Listen.opens 7 ∷ Listen.closes 7 ∷ Listen.unlinks ∷ Listen.opens 8 ∷ [])
unfolding Listen.create_listening_socket Listen.is_safe_parent_directory Listen.fill_unix_address
    Listen.probe_existing_socket Listen.replace_existing Listen.bind_and_listen
stale_socket = refl

create_listening_socket-IsBalanced_example :
    Safety.IsBalanced (Listen.create_listening_socket sys path)
create_listening_socket-IsBalanced_example = Safety.create_listening_socket-IsBalanced sys path

create_listening_socket-IsListening_example : Guards.IsListening sys path
create_listening_socket-IsListening_example =
    Guards.create_listening_socket-IsListening sys path 8
      (ap (λ (r : Option ℕ × List Listen.Effect). r.0) stale_socket)
