-- ===== src/TcpServer/Listening.antt =====
-- `listen` and `stop` of tornado/TcpServer.cpp.
use simplesvr.Prelude.{
  ℕ, ◌≡◌, refl, sym, ap, true, false, ◌∷◌, none, some, arith, Bool-cases, Option-cases, ◌∙◌, inl,
  inr, ◌⊎◌,
}
use simplesvr.Prelude.Int.{ℤ, pos}
use simplesvr.Stream.{read_event}
use simplesvr.TimeoutQueue.MultiIndex.{Container}
use simplesvr.Loop.{Loop, free_slot, slot_at, in_range, add_handler, remove_handler}
use simplesvr.Loop.Table.{added, add_handler-added, add_handler-outside, slot_at-added}
use simplesvr.Loop.Signals.{IsSameTable, remove_handler-add_handler}
use simplesvr.TcpServer.{Opening, TcpServer, stop, listen}

module _ (c : Container) where
  -- What a `listen` that returns has done: the handler may be in the table.
  listen_lem :
      (o : Opening) (handler fd : ℕ) (s : TcpServer c) {r : ℤ × TcpServer c}
      → o.opened ≡ some fd
      → listen c o handler s ≡ some r
      → (r.1.socket ≡ some fd)
        × (r.1.closed ≡ s.closed)
        × ((r.1.loop ≡ s.loop)
            ⊎ ((result : ℤ) × (add_handler c fd (some handler) read_event o.registered s.loop
                  ≡ some (result, r.1.loop))))
  unfolding listen
  listen_lem o handler fd s {r} e h =
      elim (Option-cases (add_handler c fd (some handler) read_event o.registered s.loop)) [
        | inl a ↦ ground arith
        | inr ((result, l), a) ↦
            let done : (r.1.socket ≡ some fd)
                × (r.1.closed ≡ s.closed)
                × ((r.1.loop ≡ s.loop) ⊎ (r.1.loop ≡ l)) =
              ground arith in
            (
              done.0,
              done.1,
              elim (done.2) [
                | inl same ↦ inl same
                | inr q ↦ inr (result, a ∙ ap (λ m. some (result, m)) (sym q))
              ],
            )
      ]

  remove_handler_free :
      (fd : ℕ) (result : ℤ) (l : Loop c)
      → (slot_at l.handlers fd).taken ≡ false
      → (remove_handler c fd result l).1 ≡ l
  unfolding remove_handler
  remove_handler_free fd result l f = ground arith

  stop_lem :
      (result : ℤ) (fd : ℕ) (s : TcpServer c)
      → s.socket ≡ some fd
      → (let s' = stop c result s in
          (s'.socket ≡ none)
          × (s'.closed ≡ fd ∷ s.closed)
          × (s'.loop ≡ (remove_handler c fd result s.loop).1))
  unfolding stop
  stop_lem result fd s e = rw e (refl, refl, refl)

  -- A server whose `listen` opened a descriptor, for which the slot was free, and returned, with
  -- whatever result, is put back by `stop`: the table has the handlers that it had, the socket is
  -- forgotten, and the descriptor is closed.
  pub stop-listen :
      (o : Opening) (handler fd : ℕ) (result : ℤ) (s : TcpServer c) {r : ℤ × TcpServer c}
      → o.opened ≡ some fd
      → slot_at s.loop.handlers fd ≡ free_slot
      → listen c o handler s ≡ some r
      → let s' = stop c result r.1 in
        (s'.socket ≡ none) × (s'.closed ≡ fd ∷ s.closed) × IsSameTable c s.loop s'.loop
  stop-listen o handler fd result s {r} e free h =
      let (opened, closed, table) = listen_lem o handler fd s e h in
      let (forgotten, closed', loop) = stop_lem result fd r.1 opened in
      (
        forgotten,
        closed' ∙ ap (λ l. fd ∷ l) closed,
        elim table [
          | inl same ↦
              let k =
                loop
                ∙ ap (λ l. (remove_handler c fd result l).1) same
                ∙ remove_handler_free fd result s.loop (ap (λ t. t.taken) free) in
              record { handlers = ap (λ t. t.handlers) k; handle_num = ap (λ t. t.handle_num) k }
          | inr (result', a) ↦
              let k =
                remove_handler-add_handler c fd (some handler) read_event o.registered result s.loop
                  free a in
              record {
                handlers = ap (λ t. t.handlers) loop ∙ k.handlers;
                handle_num = ap (λ t. t.handle_num) loop ∙ k.handle_num;
              }
        ],
      )

  -- A `listen` that opened a descriptor and returned, with whatever result, keeps it: a second
  -- `listen` fails the assertion at its start, whatever the system would give it.
  pub listen_again :
      (o again : Opening) (handler fd : ℕ) (s : TcpServer c) {r : ℤ × TcpServer c}
      → o.opened ≡ some fd
      → listen c o handler s ≡ some r
      → listen c again handler r.1 ≡ none
  unfolding listen
  listen_again o again handler fd s {r} e h =
      let (opened, _, _) = listen_lem o handler fd s e h in rw opened refl

  -- Where every call of the system succeeds, `listen` returns 0, but the handler is in the table only
  -- if it has a slot for the descriptor: else the socket listens and nobody accepts.
  pub listen_succeeds :
      (o : Opening) (handler fd : ℕ) (s : TcpServer c)
      → s.socket ≡ none
      → o.opened ≡ some fd
      → o.options_set ≡ true
      → o.bound ≡ true
      → o.listening ≡ true
      → slot_at s.loop.handlers fd ≡ free_slot
      → (s' : TcpServer c) × (listen c o handler s ≡ some (pos 0, s'))
        × (s'.socket ≡ some fd)
        × (((in_range c fd s.loop ≡ true)
              × (slot_at s'.loop.handlers fd ≡ record { taken = true; cb = some handler }))
            ⊎ ((in_range c fd s.loop ≡ false) × (s'.loop ≡ s.loop)))
  unfolding listen
  listen_succeeds o handler fd s n e opt b l free = elim (Bool-cases (in_range c fd s.loop)) [
    | inl inside ↦
        let h =
          add_handler-added c fd (some handler) read_event o.registered s.loop inside
            (ap (λ t. t.taken) free) in
        (
          record s { socket = some fd; loop = added c fd (some handler) read_event s.loop },
          rw (n, e, opt, b, l, h) refl,
          refl,
          inl (inside, slot_at-added c fd (some handler) read_event s.loop inside),
        )
    | inr outside ↦
        let h = add_handler-outside c fd (some handler) read_event o.registered s.loop outside in
        (record s { socket = some fd }, rw (n, e, opt, b, l, h) refl, refl, inr (outside, refl))
  ]
