-- ===== src/SocketClient/Progress.antt =====
-- When the receiving thread has handed over what it has, the other thread can handle all of it.
use lighting_gateway.Prelude.{
  ℕ, ◌++◌, ◌∙◌, ◌∷◌, ◌≡◌, Bool, List, Option, [], append-nil, append_assoc, false, refl, some, sym,
  true,
}
use lighting_gateway.Prelude.Reading.{Bytes}
use lighting_gateway.SocketClient.{
  SocketClient, Pointer, nodes, freed, Owner, free, by_rx, by_handler, Action, receives, rx_goes_on,
  HandlerAt, starting, before_wait, woken, handling, started, handler_goes_on, wakes, step,
  handler_step, RxAt, polling, locking, moving, signalling, stopped, waiting,
}
use lighting_gateway.SocketClient.Interleaving.{Reach, here, next, IsPrompt, Reach-weaken}
use lighting_gateway.SocketClient.Delivery.{
  nodes_of, is_list, pending, IsCalm, IsTurn, delivered_lem,
}
use lighting_gateway.SocketClient.Exclusion.{
  rx_holds, handler_holds, is_by_rx, is_by_handler, IsOfWhole, reached-IsExclusive,
}

-- `rxThreadFunc` is in a new round, or behind its loop.
abbrev pub is_between : RxAt → Bool
is_between polling = true
is_between (locking done) = false
is_between (moving done) = false
is_between (signalling done) = false
is_between stopped = true

-- Only `handleThreadFunc` goes on.
abbrev pub IsOfHandler : Action → SocketClient → Type 0
IsOfHandler (receives p) c = ⊥
IsOfHandler rx_goes_on c = ⊥
IsOfHandler handler_goes_on c = Unit
IsOfHandler wakes c = ⊥

IsPrompt-whole : (a : Action) (c : SocketClient) → IsPrompt a c → IsOfWhole a c
IsPrompt-whole (receives p) c q = q
IsPrompt-whole rx_goes_on c q = tt
IsPrompt-whole handler_goes_on c q = tt
IsPrompt-whole wakes c q = tt

between-IsCalm :
    (r : RxAt) (h : HandlerAt) (p : Pointer) → is_between r ≡ true → IsTurn r h p → IsCalm h p
between-IsCalm polling h p b t = t
between-IsCalm (locking done) h p b t = cc
between-IsCalm (moving done) h p b t = cc
between-IsCalm (signalling done) h p b t = cc
between-IsCalm stopped h p b t = t

between-free :
    (r : RxAt) (owner : Owner)
    → is_between r ≡ true
    → rx_holds r ≡ is_by_rx owner
    → false ≡ is_by_handler owner
    → owner ≡ free
between-free r free b e f = refl
between-free polling by_rx b e f = cc
between-free (locking done) by_rx b e f = cc
between-free (moving done) by_rx b e f = cc
between-free (signalling done) by_rx b e f = cc
between-free stopped by_rx b e f = cc
between-free r by_handler b e f = cc

-- The states that the handler reaches alone, with these messages handled.
abbrev pub HandlesAll : SocketClient → List Bytes → Type 0
HandlesAll c ms = (d : SocketClient) × Reach IsOfHandler c [] d × (d.handled ≡ ms)

walk_all :
    (l : List Bytes) (c t : SocketClient)
    → Reach IsOfHandler c [] t
    → t.handler ≡ handling l
    → HandlesAll c (t.handled ++ l)
unfolding step handler_step
walk_all [] c t r e = (t, r, sym (append-nil t.handled))
walk_all (m ∷ l) c t r e =
    let u : SocketClient = record t {
      handled = t.handled ++ m ∷ [];
      rx_proc_buf = freed;
      handler = handling l;
    } in
    let goes : step handler_goes_on t ≡ some u = rw e refl in
    let (d, r', h) = walk_all l c u (next handler_goes_on r tt goes) refl in
    (d, r', h ∙ append_assoc t.handled (m ∷ []) l)

take_list :
    (p : Pointer) (c : SocketClient)
    → c.handler ≡ woken
    → c.client_rx_mutex ≡ free
    → c.rx_proc_buf ≡ p
    → is_list p ≡ true
    → HandlesAll c (c.handled ++ nodes_of p)
unfolding step handler_step
take_list (nodes l) c h o p i =
    let t : SocketClient = record c { client_rx_mutex = by_handler; handler = handling l } in
    let goes : step handler_goes_on c ≡ some t = rw (h, o, p) refl in
    walk_all l c t (next handler_goes_on here tt goes) refl
take_list freed c h o p i = cc

handle_pending :
    (h : HandlerAt) (c : SocketClient)
    → c.handler ≡ h
    → IsCalm h c.rx_proc_buf
    → (false ≡ is_by_handler c.client_rx_mutex → c.client_rx_mutex ≡ free)
    → handler_holds h ≡ is_by_handler c.client_rx_mutex
    → HandlesAll c (c.handled ++ pending h c.rx_proc_buf)
handle_pending starting c e k o b = rw (k, append-nil c.handled) (c, here, refl)
handle_pending before_wait c e k o b = rw (k, append-nil c.handled) (c, here, refl)
handle_pending waiting c e k o b = rw (k, append-nil c.handled) (c, here, refl)
handle_pending woken c e k o b = take_list c.rx_proc_buf c e (o b) refl k
handle_pending (handling l) c e k o b = walk_all l c c here e

-- If, under the same conditions on the order of the steps, the receiving thread is between two
-- rounds or behind its loop and has nothing in its buffer, the handling thread alone can go on
-- until the callback has been called with every message that the rounds brought.
pub handles_all :
    (socket_buf : Bytes) (n : Option ℕ) {ms : List Bytes} {c : SocketClient}
    → Reach IsPrompt (started socket_buf n) ms c
    → is_between c.rx ≡ true
    → c.rx_buf ≡ []
    → HandlesAll c ms
handles_all socket_buf n {ms} {c} r b none_left =
    let (turn, e, _) = delivered_lem socket_buf n r in
    let (by, held) =
      reached-IsExclusive socket_buf n
        (Reach-weaken IsPrompt IsOfWhole (started socket_buf n) IsPrompt-whole r) in
    let all =
      handle_pending c.handler c refl (between-IsCalm c.rx c.handler c.rx_proc_buf b turn)
        (between-free c.rx c.client_rx_mutex b by) held in
    let same : c.handled ++ pending c.handler c.rx_proc_buf ≡ ms =
      rw (none_left, append-nil (pending c.handler c.rx_proc_buf)) at e in
    rw same at all
