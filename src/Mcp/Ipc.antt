-- ===== src/Mcp/Ipc.antt =====
-- browserd/mcp/mcp_ipc_transport.cc and mcp_ipc_transport_posix.cc: one local client at a time over a
-- Unix socket. The IPC thread runs `RunLoop`; the main thread sends responses. Each step of the model
-- is one of the sections under `lock_`, or a system call between two of them, so that the threads may
-- interleave wherever the lock allows it. A file descriptor below 0 is `none`.
pub mod Listen
pub mod Reads
pub mod Streams
mod Tests
use browserd.Shared.{
  ℕ, zero, suc, ◌+◌, ◌-◌, ◌%◌, ◌^◌, Bool, true, false, not, ◌&&◌, ◌||◌, Option, none, some, List,
  [], ◌∷◌, ◌++◌, map, Text, is_empty, eqb, take, drop, has_value, if◌then◌else◌,
}
use browserd.Mcp.Line.{feed}

-- Where the loop stands: before `poll`, after it with the readiness of the two descriptors, after the
-- listener's part, or in `recv` for a client and its generation.
pub data Phase : Type 0 where
  polling : Phase
  polled : Bool → Bool → Phase
  accepted : Bool → Phase
  receiving : ℕ → ℕ → Phase
  ended : Phase

-- The fields of the transport and the loop's buffer; then the chunks received and the lines dispatched,
-- each with the generation of its client, the responses written, with the generation of the client
-- that had the descriptor, and the descriptors closed and paths unlinked.
pub record Ipc : Type 0 where
  pub stopping : Bool
  pub listener_fd : Option ℕ
  pub active_client_fd : Option ℕ
  pub active_client_generation : ℕ
  pub bound_socket_path : Text
  pub buffer : Text
  pub phase : Phase
  pub received : List (ℕ × Text)
  pub dispatched : List (ℕ × Text)
  pub written : List (ℕ × Text)
  pub closed : List ℕ
  pub unlinked : List Text

-- Where `RunLoop` enters its loop: the listener is made, and the constructor's fields are as they were.
abbrev pub listening : ℕ → Text → Ipc
listening fd path = record {
  stopping = false;
  listener_fd = some fd;
  active_client_fd = none;
  active_client_generation = 0;
  bound_socket_path = path;
  buffer = [];
  phase = polling;
  received = [];
  dispatched = [];
  written = [];
  closed = [];
  unlinked = [];
}

-- `++active_client_generation_` on a uint64_t.
abbrev pub next_generation : ℕ → ℕ
next_generation g = (g + 1) % 2 ^ 64

abbrev opt_list {ℓ} : {A : Type ℓ} → Option A → List A
opt_list none = []
opt_list (some a) = a ∷ []

-- `CloseFd(&active_client_fd_)`.
unfoldable pub close_client : Ipc → Ipc
close_client s = record s {
  active_client_fd = none;
  closed = s.closed ++ opt_list s.active_client_fd;
}

unfoldable pub request_stop_locked : Ipc → Ipc
unfolding close_client
request_stop_locked s =
    let t = close_client s in
    let u = record t { listener_fd = none; closed = t.closed ++ opt_list t.listener_fd } in
    if is_empty u.bound_socket_path
    then u
    else record u { unlinked = u.unlinked ++ u.bound_socket_path ∷ []; bound_socket_path = [] }

-- What `poll` reports: an error or a timeout, or which descriptors are ready.
pub data Poll : Type 0 where
  nothing : Poll
  ready : Bool → Bool → Poll

-- From the head of the loop to `poll`; only the descriptors that are there can be ready.
unfoldable pub poll_step : Ipc → Poll → Ipc
unfolding request_stop_locked
poll_step s outcome =
    if s.stopping || (not (has_value s.listener_fd) && not (has_value s.active_client_fd))
    then record (request_stop_locked s) { phase = ended }
    else elim outcome [
      | nothing ↦ s
      | ready listener client ↦ record s {
        phase =
            polled (listener && has_value s.listener_fd) (client && has_value s.active_client_fd);
      }
    ]

-- The listener's part, where `accept` gives a descriptor or fails.
unfoldable pub accept_step : Ipc → Bool → Bool → Option ℕ → Ipc
accept_step s listener_ready client_ready accepted_fd =
    let s' = record s { phase = accepted client_ready } in
    if not listener_ready then s' else elim accepted_fd [
      | none ↦ s'
      | some fd ↦
          if has_value s.active_client_fd
          then record s' { closed = s.closed ++ fd ∷ [] }
          else record s' {
            active_client_fd = some fd;
            active_client_generation = next_generation s.active_client_generation;
            buffer = [];
          }
    ]

-- The second snapshot.
unfoldable pub snapshot_step : Ipc → Bool → Ipc
snapshot_step s client_ready = elim s.active_client_fd [
  | none ↦ record s { phase = polling }
  | some fd ↦
      if not client_ready
      then record s { phase = polling }
      else record s { phase = receiving fd s.active_client_generation }
]

-- After `recv` for `fd`, which gives `none` for an error or the end of the stream.
unfoldable pub receive_step : Ipc → ℕ → ℕ → Option Text → Ipc
unfolding close_client
receive_step s fd generation none =
    let s' : Ipc = elim s.active_client_fd [
      | none ↦ s
      | some now ↦ if eqb now fd then close_client s else s
    ] in
    record s' { buffer = []; phase = polling }
receive_step s fd generation (some chunk) =
    let fed = feed s.buffer chunk in
    record s {
      buffer = fed.1;
      dispatched = s.dispatched ++ map (λ line. (generation, line)) fed.0;
      received = s.received ++ (generation, chunk) ∷ [];
      phase = polling;
    }

-- The results of `send`: one byte more than so many, or nothing with `EINTR` or another error.
pub data Send : Type 0 where
  sent : ℕ → Send
  interrupted : Send
  failed : Send

-- The loop of `SendSerializedResponse`, over the results that `send` gives: what is written, and whether
-- it failed.
unfoldable pub send_loop : Text → List Send → Text × Bool
send_loop remaining [] = ([], false)
send_loop remaining (outcome ∷ outcomes) =
    let again = send_loop remaining outcomes in
    let more = λ (n : ℕ). send_loop (drop n remaining) outcomes in
    if is_empty remaining then ([], false) else elim outcome [
      | sent n ↦ (take (suc n) remaining ++ (more (suc n)).0, (more (suc n)).1)
      | interrupted ↦ again
      | failed ↦ ([], true)
    ]

unfoldable pub send_serialized_response : Ipc → ℕ → Text → List Send → Ipc
unfolding send_loop close_client
send_serialized_response s client_generation serialized outcomes =
    if not (has_value s.active_client_fd) || not (eqb s.active_client_generation client_generation)
    then s
    else (let result = send_loop serialized outcomes in
        let s' = record s { written = s.written ++ (s.active_client_generation, result.0) ∷ [] } in
        if result.1 then close_client s' else s')

-- The destructor's part under the lock.
unfoldable pub stop : Ipc → Ipc
unfolding request_stop_locked
stop s = request_stop_locked (record s { stopping = true })

-- What the loop's next step meets, and what the main thread does between two steps.
pub data IpcEvent : Type 0 where
  poll_gives : Poll → IpcEvent
  accept_gives : Option ℕ → IpcEvent
  snapshot : IpcEvent
  recv_gives : Option Text → IpcEvent
  respond : ℕ → Text → List Send → IpcEvent
  stops : IpcEvent

unfoldable pub loop_step : Ipc → Phase → IpcEvent → Ipc
unfolding poll_step accept_step snapshot_step receive_step send_serialized_response stop
loop_step s phase (respond generation serialized outcomes) =
    send_serialized_response s generation serialized outcomes
loop_step s phase stops = stop s
loop_step s polling (poll_gives outcome) = poll_step s outcome
loop_step s (polled l c) (accept_gives fd) = accept_step s l c fd
loop_step s (accepted c) snapshot = snapshot_step s c
loop_step s (receiving fd g) (recv_gives chunk) = receive_step s fd g chunk
loop_step s phase event = s

unfoldable pub step : Ipc → IpcEvent → Ipc
unfolding loop_step
step s event = loop_step s s.phase event

unfoldable pub run : Ipc → List IpcEvent → Ipc
unfolding step
run s [] = s
run s (e ∷ es) = run (step s e) es
