-- ===== src/Mcp/Ipc/Streams.antt =====
-- mcp_ipc_transport_posix.cc: the lines dispatched against the bytes that the clients sent.
use browserd.Shared.{
  ℕ, suc, ◌+◌, ◌^◌, ◌≤◌, ◌<◌, ◌≡◌, refl, sym, subst, ◌∙◌, inl, inr, Bool, true, false, not, ◌&&◌,
  ◌||◌, Option, none, some, List, [], ◌∷◌, map, Text, eqb, eqb_iff, length, arith, if_elim,
  Option-cases, false≢true, has_value, is_empty,
}
use browserd.Mcp.Line.{strip_cr}
use browserd.Mcp.Line.Framing
use browserd.Mcp.Ipc
use browserd.Mcp.Ipc.Reads.{
  Reads, Reading, IsCurrent, is_receiving, of_client, weaken, accepts, receives,
}

IsCurrent-none :
    (gen : ℕ) (active : Option ℕ) (p : Ipc.Phase) → IsCurrent gen active p → IsCurrent gen none p
IsCurrent-none gen active Ipc.polling c = tt
IsCurrent-none gen active (Ipc.polled l r) c = tt
IsCurrent-none gen active (Ipc.accepted r) c = tt
IsCurrent-none gen active (Ipc.receiving fd g) c = (c.0, inl refl)
IsCurrent-none gen active Ipc.ended c = tt

open_later : (b c : Bool) → c ≡ true → b || c ≡ true
open_later true c e = refl
open_later false c e = e

open_closed : (b c : Bool) → b || false ≡ true → b || c ≡ true
open_closed true c e = refl
open_closed false c e = cc

open_left : (b : Bool) → b || false ≡ true → b ≡ true
open_left true e = refl
open_left false e = e

open_right : (b c : Bool) → b ≡ false → b || c ≡ true → c ≡ true
open_right true c h e = cc
open_right false c h e = e

-- A step of the loop, or of the main thread, keeps the streams.
module _ (s : Ipc.Ipc) (h : Reading s) where
  closed-Reads : Reads s.active_client_generation s.buffer none s.phase s.received s.dispatched
  closed-Reads =
      weaken h.reads s.buffer none s.phase
        (λ e. (open_closed (is_receiving s.phase) (has_value s.active_client_fd) e, refl))
        (IsCurrent-none s.active_client_generation s.active_client_fd s.phase h.reads.current)

  ended-Reads :
      (buf : Text) (p : Ipc.Phase)
      → is_receiving p ≡ false
      → IsCurrent s.active_client_generation none p
      → Reads s.active_client_generation buf none p s.received s.dispatched
  ended-Reads buf p e c =
      weaken closed-Reads buf none p
        (λ k. absurd (false≢true (sym e ∙ open_left (is_receiving p) k))) c

  -- The same client, in another phase.
  moved :
      (p : Ipc.Phase)
      → is_receiving p ≡ false
      → IsCurrent s.active_client_generation s.active_client_fd p
      → Reading (record s { phase = p })
  moved p e c = record {
    reads =
        weaken h.reads s.buffer s.active_client_fd p
          (λ k. (
            open_later (is_receiving s.phase) (has_value s.active_client_fd)
                (open_right (is_receiving p) (has_value s.active_client_fd) e k),
            refl,
          ))
          c;
  }

  request_stop_locked-Reading : Reading (Ipc.request_stop_locked s)
  unfolding Ipc.request_stop_locked Ipc.close_client
  request_stop_locked-Reading =
      if_elim Reading (is_empty s.bound_socket_path) (λ _. record { reads = closed-Reads })
        (λ _. record { reads = closed-Reads })

  request_stop_locked-ended : Reading (record (Ipc.request_stop_locked s) { phase = Ipc.ended })
  unfolding Ipc.request_stop_locked Ipc.close_client
  request_stop_locked-ended =
      if_elim (λ (t : Ipc.Ipc). Reading (record t { phase = Ipc.ended }))
        (is_empty s.bound_socket_path)
        (λ _. record { reads = ended-Reads s.buffer Ipc.ended refl tt })
        (λ _. record { reads = ended-Reads s.buffer Ipc.ended refl tt })

  poll_step-Reading : (outcome : Ipc.Poll) → Reading (Ipc.poll_step s outcome)
  unfolding Ipc.poll_step
  poll_step-Reading Ipc.nothing =
      if_elim Reading
        (s.stopping || (not (has_value s.listener_fd) && not (has_value s.active_client_fd)))
        (λ _. request_stop_locked-ended) (λ _. h)
  poll_step-Reading (Ipc.ready l c) =
      if_elim Reading
        (s.stopping || (not (has_value s.listener_fd) && not (has_value s.active_client_fd)))
        (λ _. request_stop_locked-ended)
        (λ _.
          moved (Ipc.polled (l && has_value s.listener_fd) (c && has_value s.active_client_fd)) refl
            tt)

  accept_step-Reading :
      (l c : Bool) (accepted_fd : Option ℕ)
      → suc s.active_client_generation < 2 ^ 64
      → Reading (Ipc.accept_step s l c accepted_fd)
  unfolding Ipc.accept_step
  accept_step-Reading l c none k =
      if_elim Reading (not l) (λ _. moved (Ipc.accepted c) refl tt)
        (λ _. moved (Ipc.accepted c) refl tt)
  accept_step-Reading l c (some fd) k =
      if_elim Reading (not l) (λ _. moved (Ipc.accepted c) refl tt)
        (λ _.
          if_elim Reading (has_value s.active_client_fd)
            (λ _. record { reads = (moved (Ipc.accepted c) refl tt).reads })
            (λ _. record { reads = accepts h.reads fd c k }))

  snapshot_step-Reading : (c : Bool) → Reading (Ipc.snapshot_step s c)
  unfolding Ipc.snapshot_step
  snapshot_step-Reading c = elim (Option-cases s.active_client_fd) [
    | inl e ↦ rw e (record { reads = ended-Reads s.buffer Ipc.polling refl tt })
    | inr (fd, e) ↦
        let now =
          subst (λ a. Reads s.active_client_generation s.buffer a s.phase s.received s.dispatched) e
            h.reads in
        rw e (
          if_elim Reading (not c)
            (λ _. record {
              reads =
                  weaken now s.buffer (some fd) Ipc.polling
                    (λ _. (open_later (is_receiving s.phase) true refl, refl)) tt;
            })
            (λ _. record {
              reads =
                  weaken now s.buffer (some fd) (Ipc.receiving fd s.active_client_generation)
                    (λ _. (open_later (is_receiving s.phase) true refl, refl)) (refl, inr refl);
            }))
  ]

  module _ (fd g : ℕ) (e : s.phase ≡ Ipc.receiving fd g) where
    in_recv :
        Reads s.active_client_generation s.buffer s.active_client_fd
          (Ipc.receiving fd g)
          s.received
          s.dispatched
    in_recv =
        subst
          (λ p.
            Reads s.active_client_generation s.buffer s.active_client_fd p s.received s.dispatched)
          e h.reads

    receive_step-closed : Reading (Ipc.receive_step s fd g none)
    unfolding Ipc.receive_step Ipc.close_client
    receive_step-closed = elim in_recv.current.1 [
      | inl gone ↦ rw gone (record {
        reads =
            subst (λ a. Reads s.active_client_generation [] a Ipc.polling s.received s.dispatched)
              (sym gone) (ended-Reads [] Ipc.polling refl tt);
      })
      | inr there ↦
          rw (there, (eqb_iff fd fd).1 refl) (record { reads = ended-Reads [] Ipc.polling refl tt })
    ]

    receive_step-chunk : (chunk : Text) → Reading (Ipc.receive_step s fd g (some chunk))
    unfolding Ipc.receive_step
    receive_step-chunk chunk =
        let now =
          subst
            (λ i.
              Reads s.active_client_generation s.buffer s.active_client_fd (Ipc.receiving fd i)
                s.received s.dispatched)
            in_recv.current.0 in_recv in
        rw in_recv.current.0 (record { reads = receives now chunk })

  send_serialized_response-Reading :
      (g : ℕ) (serialized : Text) (outcomes : List Ipc.Send)
      → Reading (Ipc.send_serialized_response s g serialized outcomes)
  unfolding Ipc.send_serialized_response Ipc.close_client
  send_serialized_response-Reading g serialized outcomes =
      if_elim Reading (not (has_value s.active_client_fd) || not (eqb s.active_client_generation g))
        (λ _. h)
        (λ _.
          if_elim Reading (Ipc.send_loop serialized outcomes).1
            (λ _. record { reads = closed-Reads }) (λ _. record { reads = h.reads }))

loop_step-Reading :
    (s : Ipc.Ipc) (h : Reading s) (p : Ipc.Phase) (event : Ipc.IpcEvent)
    → s.phase ≡ p
    → suc s.active_client_generation < 2 ^ 64
    → Reading (Ipc.loop_step s p event)
unfolding Ipc.loop_step Ipc.stop
loop_step-Reading s h p (Ipc.respond g t outcomes) e k =
    send_serialized_response-Reading s h g t outcomes
loop_step-Reading s h p Ipc.stops e k =
    request_stop_locked-Reading (record s { stopping = true }) (record { reads = h.reads })
loop_step-Reading s h Ipc.polling (Ipc.poll_gives outcome) e k = poll_step-Reading s h outcome
loop_step-Reading s h (Ipc.polled l c) (Ipc.accept_gives fd) e k = accept_step-Reading s h l c fd k
loop_step-Reading s h (Ipc.accepted c) Ipc.snapshot e k = snapshot_step-Reading s h c
loop_step-Reading s h (Ipc.receiving fd g) (Ipc.recv_gives none) e k =
    receive_step-closed s h fd g e
loop_step-Reading s h (Ipc.receiving fd g) (Ipc.recv_gives (some t)) e k =
    receive_step-chunk s h fd g e t
loop_step-Reading s h p event e k = h

module _ (s : Ipc.Ipc) (k : suc s.active_client_generation < 2 ^ 64) where
  abbrev IsNext : Ipc.Ipc → Type 0
  IsNext t = t.active_client_generation ≤ suc s.active_client_generation

  request_stop_locked-generation :
      (t : Ipc.Ipc)
      → (Ipc.request_stop_locked t).active_client_generation ≡ t.active_client_generation
  unfolding Ipc.request_stop_locked Ipc.close_client
  request_stop_locked-generation t = ground arith

  loop_step-generation : (p : Ipc.Phase) (event : Ipc.IpcEvent) → IsNext (Ipc.loop_step s p event)
  unfolding Ipc.loop_step Ipc.stop Ipc.send_serialized_response Ipc.poll_step Ipc.accept_step
      Ipc.snapshot_step Ipc.receive_step Ipc.close_client
  loop_step-generation p (Ipc.respond g t outcomes) = ground arith
  loop_step-generation p Ipc.stops =
      omega (arith, request_stop_locked-generation (record s { stopping = true }))
  loop_step-generation Ipc.polling (Ipc.poll_gives outcome) =
      ground (arith, request_stop_locked-generation s)
  loop_step-generation (Ipc.polled l c) (Ipc.accept_gives fd) = ground (arith, k)
  loop_step-generation (Ipc.accepted c) Ipc.snapshot = ground arith
  loop_step-generation (Ipc.receiving fd g) (Ipc.recv_gives none) = ground arith
  loop_step-generation (Ipc.receiving fd g) (Ipc.recv_gives (some t)) = omega arith
  loop_step-generation p event = omega arith

run-Reading :
    (s : Ipc.Ipc) (events : List Ipc.IpcEvent)
    → Reading s
    → s.active_client_generation + length events < 2 ^ 64
    → Reading (Ipc.run s events)
unfolding Ipc.run Ipc.step
run-Reading s [] h k = h
run-Reading s (e ∷ es) h k =
    let k' : suc s.active_client_generation < 2 ^ 64 = omega (arith, k) in
    run-Reading (Ipc.step s e) es (loop_step-Reading s h s.phase e refl k')
      (omega (arith, k, loop_step-generation s k' s.phase e))

-- However accepts, reads, responses, failures and the stop interleave, fewer than 2 ^ 64 of them in
-- all, the lines dispatched for a client are the whole lines of the bytes received from it, in order
-- and less a carriage return at their ends: no line is lost, doubled or made of two clients' bytes.
pub run-lines :
    (fd : ℕ) (path : Text) (events : List Ipc.IpcEvent) (g : ℕ)
    → length events < 2 ^ 64
    → let t = Ipc.run (Ipc.listening fd path) events in
      of_client g t.dispatched
      ≡ map strip_cr (Framing.lines_of (Framing.flatten (of_client g t.received))).0
unfolding of_client Ipc.run Framing.lines_of
run-lines fd path events g k =
    (run-Reading (Ipc.listening fd path) events
        (record {
          reads = record { lines = λ g. refl; fresh = λ g l. refl; rest = λ e. refl; current = tt };
        })
        (omega (arith, k))).reads.lines
      g
