-- ===== src/Srpc/Store/Groups.antt =====
-- Groups and scenes: what a client's message does to the lists, to the chip and to the client.
use lighting_gateway.Prelude.{
  ℕ, ◌%◌, ◌++◌, ◌+◌, ◌<◌, ◌==◌, ◌∙◌, ◌∷◌, ◌≡◌, ◌≢◌, All, Bool-cases, [], ap, arith, false, get_or,
  inl, inr, leb, length, length-append, none, refl, some, suc, take_all, true,
}
use lighting_gateway.Prelude.Int.{ℤ, pos, eq_ℤ}
use lighting_gateway.Prelude.Reading.{
  Bytes, build_uint16_lem, bytes-append, c_string, hi_uint16, lo_uint16,
}
use lighting_gateway.Lists.{Lists}
use lighting_gateway.Sockets.{Server, socket_sever_send}
use lighting_gateway.Soc.Wire.{word}
use lighting_gateway.Soc.Wire.RoundTrip.{IsWord}
use lighting_gateway.Soc.Api.{perform, add_group, recall_scene}
use lighting_gateway.Srpc.{System, Gateway, running, srpc_send}
use lighting_gateway.Srpc.Reply.{srpc_call_back_add_group_rsp, srpc_call_back_add_scene_rsp}
use lighting_gateway.Srpc.Store.{srpc_add_group, srpc_recall_scene, srpc_store_scene, finish}
use lighting_gateway.Srpc.Incoming.{srpc_process_incoming}
use lighting_gateway.Srpc.Client.{Address, address}

-- A name as it stands in a message.
abbrev pub named : Bytes → Bytes → Bytes
named name rest = length name ∷ (name ++ rest)

unfoldable pub add_group_message : Address → Bytes → Bytes → Bytes
add_group_message a name rest = 0x8F ∷ (13 + length name) ∷ address a (named name rest)

unfoldable pub store_scene_message : Address → ℕ → Bytes → Bytes → Bytes
store_scene_message a group name rest =
    0x91 ∷ (15 + length name) ∷ address a (word group (named name rest))

unfoldable pub recall_scene_message : Address → ℕ → Bytes → Bytes → Bytes
recall_scene_message a group name rest =
    0x92 ∷ (15 + length name) ∷ address a (word group (named name rest))

-- The answer to a client that has added a device to a group.
abbrev pub group_answer : ℕ → Bytes → Bytes
group_answer group_id name = 0x0B ∷ (3 + length name) ∷ word group_id (length name ∷ name)

abbrev pub NonZero : ℕ → Type 0
NonZero b = b ≢ 0

c_string_lem : (name : Bytes) → All NonZero name → c_string name ≡ name
c_string_lem [] h = refl
c_string_lem (b ∷ bs) h =
    let letter : (b == 0) ≡ false = ground (arith, h.0) in rw (letter, c_string_lem bs h.1) refl

-- One more message to a client.
abbrev pub wrote : ℤ → Bytes → Server → Server
wrote fd msg s = record s { written = s.written ++ (fd, msg) ∷ [] }

module _ {L : Type 0} (ops : Lists L) (sys : System) (fd : ℤ) where
  -- A message whose second byte counts what follows the header is sent as it is.
  pub srpc_send_lem :
      (msg : Bytes) (g : Gateway L)
      → length msg ≡ get_or msg 1 0 + 2
      → eq_ℤ fd (pos 0) ≡ false
      → srpc_send sys msg fd g ≡ some (record g { server = wrote fd msg g.server })
  unfolding srpc_send socket_sever_send
  srpc_send_lem msg g e open_fd =
      let room : leb (get_or msg 1 0 + 2) (length msg) ≡ true = ground (arith, e) in
      rw (room, ← e, take_all (length msg) msg (omega arith), open_fd) refl

  add_group_rsp_lem :
      (group_id : ℕ) (name : Bytes) (g : Gateway L)
      → All NonZero name
      → length name < 253
      → eq_ℤ fd (pos 0) ≡ false
      → srpc_call_back_add_group_rsp sys group_id name fd g
        ≡ some (record g { server = wrote fd (group_answer group_id name) g.server })
  unfolding srpc_call_back_add_group_rsp
  add_group_rsp_lem group_id name g letters short open_fd =
      let size : (3 + length name) % 256 ≡ 3 + length name = omega arith in
      let count : length name % 256 ≡ length name = omega arith in
      ap
        (λ n.
          srpc_send sys
            (0x0B
              ∷ (3 + length n) % 256
              ∷ lo_uint16 group_id
              ∷ hi_uint16 group_id
              ∷ length n % 256
              ∷ n)
            fd g)
        (c_string_lem name letters)
      ∙ ap
          (λ n.
            srpc_send sys
              (0x0B ∷ n ∷ lo_uint16 group_id ∷ hi_uint16 group_id ∷ length name % 256 ∷ name) fd g)
          size
      ∙ ap
          (λ n.
            srpc_send sys
              (0x0B ∷ (3 + length name) ∷ lo_uint16 group_id ∷ hi_uint16 group_id ∷ n ∷ name) fd g)
          count
      ∙ srpc_send_lem (group_answer group_id name) g (omega arith) open_fd

  -- A message that adds a device with a sixteen-bit address to a group with a name of fewer than
  -- 253 characters, none of them 0, from a socket other than 0, adds the device to the list under
  -- that name, sends the chip the command with the number that the list gives, and answers the
  -- client with that number and the name.
  pub group_added :
      (a : Address) (name rest : Bytes) (g : Gateway L)
      → IsWord a.target.dst_addr
      → All NonZero name
      → length name < 253
      → eq_ℤ fd (pos 0) ≡ false
      → (let added =
            ops.group_list_add_device_to_group name a.target.dst_addr a.target.endpoint g.lists in
          srpc_process_incoming ops sys fd (add_group_message a name rest) g
          ≡ some (
              running (record g {
                soc = perform (add_group added.0 a.target) g.soc;
                server = wrote fd (group_answer added.0 name) g.server;
                lists = added.1;
              })))
  unfolding srpc_process_incoming add_group_message srpc_add_group perform
  group_added a name rest g w letters short open_fd =
      let reply = λ (r : ℕ × L). finish ops sys (
        srpc_call_back_add_group_rsp sys r.0 name fd
          (record g { soc = perform (add_group r.0 a.target) g.soc; lists = r.1 })) in
      let added =
        ops.group_list_add_device_to_group name a.target.dst_addr a.target.endpoint g.lists in
      rw (build_uint16_lem a.target.dst_addr w, bytes-append (length name) name rest refl)
        (ap
            (λ n.
              reply
                (ops.group_list_add_device_to_group n a.target.dst_addr a.target.endpoint g.lists))
            (c_string_lem name letters)
          ∙ ap (finish ops sys) (
              add_group_rsp_lem added.0 name
                (record g { soc = perform (add_group added.0 a.target) g.soc; lists = added.1 })
                letters short open_fd))

  -- A message that recalls a scene by a name without a 0, with a sixteen-bit address and group,
  -- sends the chip the command with the number that the list has for the name in that group; the
  -- lists are as that search leaves them, and nothing else changes.
  pub scene_recalled :
      (a : Address) (group : ℕ) (name rest : Bytes) (g : Gateway L)
      → IsWord a.target.dst_addr
      → IsWord group
      → All NonZero name
      → srpc_process_incoming ops sys fd (recall_scene_message a group name rest) g
        ≡ some (
            running (record g {
              soc =
                  perform
                    (recall_scene group (ops.scene_list_get_scene_id name group g.lists).0 a.target)
                    g.soc;
              lists = (ops.scene_list_get_scene_id name group g.lists).1;
            }))
  unfolding srpc_process_incoming recall_scene_message srpc_recall_scene perform
  scene_recalled a group name rest g w v letters =
      rw
        (
          build_uint16_lem a.target.dst_addr w,
          build_uint16_lem group v,
          bytes-append (length name) name rest refl,
          c_string_lem name letters,
        )
        refl

  -- A message that stores a scene, with a sixteen-bit address and group, leads to a read or a write
  -- outside of an array if the first character of the name, as a number, is more than the length of
  -- the name.
  pub scene_overread :
      (a : Address) (group : ℕ) (first : ℕ) (name rest : Bytes) (g : Gateway L)
      → IsWord a.target.dst_addr
      → IsWord group
      → length (first ∷ name) < first
      → srpc_process_incoming ops sys fd (store_scene_message a group (first ∷ name) rest) g ≡ none
  unfolding srpc_process_incoming store_scene_message srpc_store_scene srpc_call_back_add_scene_rsp
  scene_overread a group first name rest g w v long =
      let name' = first ∷ name in
      let past : leb (suc first) (length (name' ++ 0 ∷ [])) ≡ false =
        ground (arith, length-append name' (0 ∷ [])) in
      rw
        (
          build_uint16_lem a.target.dst_addr w,
          build_uint16_lem group v,
          bytes-append (length name') name' rest refl,
          past,
        )
        (elim (Bool-cases (leb 128 first)) [ inl high ↦ rw high refl | inr low ↦ rw low refl ])
