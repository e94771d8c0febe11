-- ===== src/Controller/Leaving.antt =====
-- A device that leaves: the loop of `zdoLeaveIndCb` ends, and the device is gone.
use lighting_gateway.Prelude.{
  if◌then◌else◌, ℕ, ◌++◌, ◌+◌, ◌<◌, ◌==◌, ◌∙◌, ◌∷◌, ◌≡◌, ==_iff, All, All-split, List, Option-cases,
  [], ap, arith, false, get_or, inl, inr, leb, length, length-append, none, refl, some, suc, sym,
  take_all, true, zero,
}
use lighting_gateway.Prelude.Int.{ℤ}
use lighting_gateway.Endpoint.{EpInfoExtended, type_removed, EpInfo}
use lighting_gateway.Lists.{Lists, DeviceLaws}
use lighting_gateway.Sockets.{Server}
use lighting_gateway.Sockets.Records.{IsHeaded}
use lighting_gateway.Sockets.Broadcast.{send_allclients-Succeeds}
use lighting_gateway.Srpc.{System, Gateway, srpc_send_all, with_server}
use lighting_gateway.Srpc.Reply.{srpc_send_ep_info, send_all_made}
use lighting_gateway.Srpc.Reply.Device.{
  IsDevice, device_message_of, length-device_message_of, srpc_parse_ep_info_lem,
}
use lighting_gateway.Controller.{leave_loop}

-- The devices with other addresses.
abbrev pub others : ℕ → List EpInfo → List EpInfo
others nwk_addr [] = []
others nwk_addr (e ∷ es) =
    if e.nwk_addr == nwk_addr then others nwk_addr es else e ∷ others nwk_addr es

others_missing :
    (nwk_addr : ℕ) (es : List EpInfo)
    → All (λ e. (e.nwk_addr == nwk_addr) ≡ false) es
    → others nwk_addr es ≡ es
others_missing nwk_addr [] h = refl
others_missing nwk_addr (e ∷ es) h = rw h.0 (ap (λ l. e ∷ l) (others_missing nwk_addr es h.1))

-- A device with the address makes no difference.
others_removed :
    (nwk_addr : ℕ) (pre : List EpInfo) (e : EpInfo) (post : List EpInfo)
    → e.nwk_addr ≡ nwk_addr
    → others nwk_addr (pre ++ e ∷ post) ≡ others nwk_addr (pre ++ post)
others_removed nwk_addr [] e post h =
    let hit : (e.nwk_addr == nwk_addr) ≡ true = (==_iff e.nwk_addr nwk_addr).1 h in rw hit refl
others_removed nwk_addr (x ∷ pre) e post h =
    ap (λ l. if x.nwk_addr == nwk_addr then l else x ∷ l) (others_removed nwk_addr pre e post h)

module _ {L : Type 0} (ops : Lists L) (sys : System) (prev : ℕ) where
  pub send_ep_info-Succeeds :
      (ex : EpInfoExtended) (listening : ℤ) (g : Gateway L)
      → IsDevice ex.ep_info
      → IsHeaded listening g.server
      → (t : Server) × (srpc_send_ep_info sys ex g ≡ some (record g { server = t }))
        × IsHeaded listening t
  unfolding srpc_send_ep_info srpc_send_all
  send_ep_info-Succeeds ex listening g d h =
      let msg = device_message_of ex in
      let len : get_or msg 1 0 + 2 ≡ length msg = sym (length-device_message_of ex d) in
      let room : leb (get_or msg 1 0 + 2) (length msg) ≡ true = ground (arith, len) in
      let (t, n, sent, headed) =
        send_allclients-Succeeds sys.write_result msg listening g.server h in
      (
        t,
        ap (λ m. send_all_made sys m g) (srpc_parse_ep_info_lem sys ex d)
            ∙ rw (room, len, take_all (length msg) msg (omega arith)) (ap (with_server g) sent),
        headed,
      )

  module _ (IsValid : L → Type 0) (laws : DeviceLaws ops IsValid) where
    -- When a device leaves, the loop that removes its endpoints ends within one round more than
    -- there are devices, whatever the writes to the clients return: the list then finds no endpoint
    -- with that network address and has the devices with other addresses in their order, it is
    -- valid, the listening socket is still at the head and the chip is not asked anything.
    -- Conditions: the listening socket was at the head, every device in the list has an IEEE
    -- address of eight bytes and a name of at most 233, the list is valid, and valid lists keep the
    -- laws.
    pub leave_loop-Succeeds :
        (listening : ℤ) (fuel nwk_addr : ℕ) (g : Gateway L)
        → IsHeaded listening g.server
        → IsValid g.lists
        → All IsDevice (ops.devices g.lists).0
        → length (ops.devices g.lists).0 < fuel
        → (g' : Gateway L) × (leave_loop ops sys prev fuel nwk_addr g ≡ some g')
          × IsHeaded listening g'.server
          × ((ops.dev_list_remove_device_by_na_ep nwk_addr 0xFF g'.lists).0 ≡ none)
          × ((ops.devices g'.lists).0 ≡ others nwk_addr (ops.devices g.lists).0)
          × IsValid g'.lists
          × (g'.soc ≡ g.soc)
    unfolding leave_loop
    leave_loop-Succeeds listening zero nwk_addr g h v d f = absurd (omega arith)
    leave_loop-Succeeds listening (suc fuel) nwk_addr g h v d f =
        let r = ops.dev_list_remove_device_by_na_ep nwk_addr 0xFF g.lists in
        elim (Option-cases r.0) [
          | inl gone ↦ (
            record g { lists = r.1 },
            rw (leave_loop, gone) refl,
            h,
            (laws.missing nwk_addr 0xFF g.lists v gone).0,
            (laws.missing nwk_addr 0xFF g.lists v gone).1
                ∙ sym (
                    others_missing nwk_addr (ops.devices g.lists).0
                      (laws.none_left nwk_addr g.lists v gone)),
            laws.remove-IsValid nwk_addr 0xFF g.lists v,
            refl,
          )
          | inr (e, found) ↦
              (let (pre, post, fits, before, later) =
                  laws.removed nwk_addr 0xFF g.lists e v found in
                let (good, rest) = All-split IsDevice pre e post (rw before at d) in
                let (t, sent, headed) =
                  send_ep_info-Succeeds
                    (record { ep_info = e; prev_nwk_addr = prev; type = type_removed }) listening
                    (record g { lists = r.1 }) good h in
                let fewer : length (ops.devices r.1).0 < fuel = omega (
                  arith,
                  ap (λ l. length l) later,
                  ap (λ l. length l) before,
                  length-append pre post,
                  length-append pre (e ∷ post),
                ) in
                let (g', done, h', gone, left, v', same) =
                  leave_loop-Succeeds listening fuel nwk_addr (record g { lists = r.1; server = t })
                    headed (laws.remove-IsValid nwk_addr 0xFF g.lists v) (rw later rest) fewer in
                (
                  g',
                  rw (leave_loop, found, sent) done,
                  h',
                  gone,
                  left
                      ∙ ap (others nwk_addr) later
                      ∙ sym (ap (others nwk_addr) before ∙ others_removed nwk_addr pre e post fits),
                  v',
                  same,
                ))
        ]
