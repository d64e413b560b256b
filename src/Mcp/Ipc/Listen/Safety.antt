-- ===== src/Mcp/Ipc/Listen/Safety.antt =====
-- mcp_ipc_transport_posix.cc: which paths are listened on and unlinked, and which descriptors stay.
use browserd.Shared.{
  ℕ, ◌≡◌, refl, sym, ap, ap₂, ◌∙◌, inl, inr, Bool, true, false, not, Option, none, some, List, [],
  ◌∷◌, ◌++◌, Text, arith, if_elim, append-nil, append_assoc, Option-cases,
}
use browserd.Mcp.Ipc.Listen

abbrev pub opened : List Listen.Effect → List ℕ
opened [] = []
opened (Listen.opens fd ∷ log) = fd ∷ opened log
opened (Listen.closes fd ∷ log) = opened log
opened (Listen.unlinks ∷ log) = opened log

abbrev pub closed : List Listen.Effect → List ℕ
closed [] = []
closed (Listen.opens fd ∷ log) = closed log
closed (Listen.closes fd ∷ log) = fd ∷ closed log
closed (Listen.unlinks ∷ log) = closed log

abbrev pub kept : Option ℕ → List ℕ
kept none = []
kept (some fd) = fd ∷ []

abbrev pub has_unlink : List Listen.Effect → Bool
has_unlink [] = false
has_unlink (Listen.opens fd ∷ log) = has_unlink log
has_unlink (Listen.closes fd ∷ log) = has_unlink log
has_unlink (Listen.unlinks ∷ log) = true

opened-append : (xs ys : List Listen.Effect) → opened (xs ++ ys) ≡ opened xs ++ opened ys
opened-append [] ys = refl
opened-append (Listen.opens fd ∷ xs) ys = ap (λ l. fd ∷ l) (opened-append xs ys)
opened-append (Listen.closes fd ∷ xs) ys = opened-append xs ys
opened-append (Listen.unlinks ∷ xs) ys = opened-append xs ys

closed-append : (xs ys : List Listen.Effect) → closed (xs ++ ys) ≡ closed xs ++ closed ys
closed-append [] ys = refl
closed-append (Listen.opens fd ∷ xs) ys = closed-append xs ys
closed-append (Listen.closes fd ∷ xs) ys = ap (λ l. fd ∷ l) (closed-append xs ys)
closed-append (Listen.unlinks ∷ xs) ys = closed-append xs ys

-- Every descriptor that is opened is closed, but for the one that is returned.
pub record IsBalanced (r : Option ℕ × List Listen.Effect) : Type 0 where
  pub balance : opened r.1 ≡ closed r.1 ++ kept r.0

module _ (sys : Listen.System) (path : Text) where
  after :
      (log more : List Listen.Effect) (result : Option ℕ)
      → opened log ≡ closed log
      → opened more ≡ closed more ++ kept result
      → IsBalanced (result, log ++ more)
  after log more result h k = record {
    balance =
        opened-append log more
        ∙ ap₂ (λ a b. a ++ b) h k
        ∙ sym (append_assoc (closed log) (closed more) (kept result))
        ∙ ap (λ l. l ++ kept result) (sym (closed-append log more));
  }

  quiet : (log : List Listen.Effect) → opened log ≡ closed log → IsBalanced (none, log)
  quiet log h = record { balance = h ∙ sym (append-nil (closed log)) }

  bind_and_listen-IsBalanced :
      (log : List Listen.Effect)
      → opened log ≡ closed log
      → IsBalanced (Listen.bind_and_listen sys path log)
  unfolding Listen.bind_and_listen
  bind_and_listen-IsBalanced log h = elim (Option-cases sys.listener_fd) [
    | inl e ↦ rw (e, Listen.bind_and_listen) (quiet log h)
    | inr (fd, e) ↦
        rw (e, Listen.bind_and_listen)
          (if_elim IsBalanced (not sys.binds)
            (λ _. after log (Listen.opens fd ∷ Listen.closes fd ∷ []) none h refl)
            (λ _.
              if_elim IsBalanced (not sys.listens)
                (λ _.
                  after log (Listen.opens fd ∷ Listen.closes fd ∷ Listen.unlinks ∷ []) none h refl)
                (λ _. after log (Listen.opens fd ∷ []) (some fd) h refl)))
  ]

  replace_existing-IsBalanced :
      (state : Listen.ExistingSocketState sys path) (log : List Listen.Effect)
      → opened log ≡ closed log
      → IsBalanced (Listen.replace_existing sys path state log)
  unfolding Listen.replace_existing
  replace_existing-IsBalanced Listen.absent log h = bind_and_listen-IsBalanced log h
  replace_existing-IsBalanced Listen.stale log h =
      elim sys.unlink
        as (λ u. IsBalanced (elim u [
          | Listen.removed ↦ Listen.bind_and_listen sys path (log ++ Listen.unlinks ∷ [])
          | Listen.missing ↦ Listen.bind_and_listen sys path log
          | Listen.denied ↦ (none, log)
        ])) [
          | Listen.removed ↦ bind_and_listen-IsBalanced (log ++ Listen.unlinks ∷ []) (
              opened-append log (Listen.unlinks ∷ [])
              ∙ append-nil (opened log)
              ∙ h
              ∙ sym (append-nil (closed log))
              ∙ sym (closed-append log (Listen.unlinks ∷ [])))
          | Listen.missing ↦ bind_and_listen-IsBalanced log h
          | Listen.denied ↦ quiet log h
        ]
  replace_existing-IsBalanced Listen.active log h = quiet log h
  replace_existing-IsBalanced Listen.invalid log h = quiet log h
  replace_existing-IsBalanced Listen.error log h = quiet log h

  probe_existing_socket-closes :
      opened (Listen.probe_existing_socket sys path).1
      ≡ closed (Listen.probe_existing_socket sys path).1
  unfolding Listen.probe_existing_socket
  probe_existing_socket-closes = ground arith

  -- Whatever the calls give, `CreateListeningSocket` closes every descriptor that it opens, but for the
  -- listener that it returns.
  pub create_listening_socket-IsBalanced : IsBalanced (Listen.create_listening_socket sys path)
  unfolding Listen.create_listening_socket
  create_listening_socket-IsBalanced =
      if_elim IsBalanced (not sys.is_absolute) (λ _. record { balance = refl })
        (λ _.
          if_elim IsBalanced (not (Listen.is_safe_parent_directory sys path))
            (λ _. record { balance = refl })
            (λ _.
              if_elim IsBalanced (not (Listen.fill_unix_address sys path))
                (λ _. record { balance = refl })
                (λ _.
                  replace_existing-IsBalanced (Listen.probe_existing_socket sys path).0
                    (Listen.probe_existing_socket sys path).1 probe_existing_socket-closes)))
