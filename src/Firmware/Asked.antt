-- ===== src/Firmware/Asked.antt =====
-- What the tools ask a chip, and what they print.
use lighting_gateway.Prelude.{
  ℕ, ◌++◌, ◌-◌, ◌∙◌, ◌∷◌, ◌≡◌, List, [], ap, append-nil, append_assoc, arith, false, leb, length,
  length-append, refl, some, take, take-append, true,
}
use lighting_gateway.Prelude.Int.{ℤ, pos, negsuc, is_negative}
use lighting_gateway.Prelude.Reading.{Bytes}
use lighting_gateway.SimpleDb.Consolidation.{codes}
use lighting_gateway.Soc.Command.Query.{zb_soc_get_model}
use lighting_gateway.Soc.Port.{Soc, force_boot, zb_soc_open}
use lighting_gateway.Soc.Wire.RoundTrip.{IsWord}
use lighting_gateway.Soc.Api.{Call, Target, perform, bridge_start_nwk, get_info, get_model}
use lighting_gateway.Soc.Api.Heard.{requests_all, decode_many, heard_run}
use lighting_gateway.Soc.Api.Sending.{line, concat-append}
use lighting_gateway.Soc.Rpc.{util_get_dev_info_rsp, zcl_get_model, Stack}
use lighting_gateway.Soc.Rpc.Receive.{handled, zb_soc_process_rpc, ReadResult}
use lighting_gateway.Firmware.{
  Tool, exited, news, timeout, zb_soc_cbs, zcl_get_model_cb, model_event, received, timed_out,
  poll_round, go_on, model_loop, model_from, zb_fw_start,
}

-- The calls of the driver in six rounds of half a second without an answer.
abbrev pub silent_calls : List Call
silent_calls =
    let coordinator : Target = record { dst_addr = 0x0000; endpoint = 0xFF; addr_mode = 2 } in
    get_info ∷ get_info ∷ get_info ∷ get_info ∷ get_model coordinator ∷ get_model coordinator ∷ []

-- If the chip never answers, the tool that starts the network ends after six time-outs with the
-- word that the model is unknown: the line then has the two bytes that start the chip, and bytes
-- that decode to exactly the request to start the network, four for the device and two for the
-- model of the coordinator, in this order; if the port could be opened.
pub zb_fw_start-unanswered :
    (fd : ℤ) (soc : Soc)
    → is_negative fd ≡ false
    → (t : Tool) × (sent : Bytes) × (zb_fw_start fd
          (timeout ∷ timeout ∷ timeout ∷ timeout ∷ timeout ∷ timeout ∷ [])
          soc
        ≡ some (exited t))
      × (t.output ≡ codes "Unknown model" ++ 10 ∷ [])
      × (line t.soc ≡ line soc ++ (force_boot ++ sent))
      × (decode_many
            (length (requests_all (bridge_start_nwk ∷ silent_calls) soc.trans_seq_number))
            sent
          ≡ some (requests_all (bridge_start_nwk ∷ silent_calls) soc.trans_seq_number))
unfolding zb_fw_start zb_soc_open model_from model_loop poll_round timed_out go_on perform
zb_fw_start-unanswered (negsuc n) soc h = absurd (ground (arith, h))
zb_fw_start-unanswered (pos n) soc h =
    let opened : Soc = record soc { written = soc.written ++ force_boot ∷ [] } in
    let (sent, on_line, read) =
      heard_run (bridge_start_nwk ∷ silent_calls) opened
        (tt, (tt, (tt, (tt, (tt, (omega arith, (omega arith, tt))))))) in
    (
      _,
      sent,
      refl,
      refl,
      on_line
          ∙ ap (λ l. l ++ sent) (concat-append soc.written (force_boot ∷ []))
          ∙ append_assoc (line soc) force_boot sent,
      read,
    )

-- If the driver reports the device, with a sixteen-bit address, and in the next round a name of a
-- model with its length before it, the tool ends in that round: it has printed the name and nothing
-- else, whatever follows it, and the bytes added to the serial line decode to the one request for
-- the model of the device at that address.
pub model_told :
    (stack stack' : Stack) (junk junk' : Bytes) (reads reads' : List ReadResult)
    (status nwk_addr : ℕ) (ieee_addr : Bytes) (dev_type dev_state : ℕ) (name rest : Bytes)
    (t : Tool)
    → IsWord nwk_addr
    → zb_soc_process_rpc zb_soc_cbs stack junk reads
      ≡ handled (some (some (util_get_dev_info_rsp status nwk_addr ieee_addr dev_type dev_state)))
    → zb_soc_process_rpc zb_soc_cbs stack' junk' reads'
      ≡ handled (some (some (zcl_get_model (length name ∷ (name ++ rest)))))
    → (t' : Tool) × (sent : Bytes) × (model_loop
          (news stack junk reads ∷ news stack' junk' reads' ∷ [])
          t
        ≡ some (exited t'))
      × (t'.output ≡ t.output ++ (codes "Model ID:" ++ (name ++ 10 ∷ [])))
      × (line t'.soc ≡ line t.soc ++ sent)
      × (let asked : Target = record { dst_addr = nwk_addr; endpoint = 0xFF; addr_mode = 2 } in
          decode_many (length (requests_all (get_model asked ∷ []) t.soc.trans_seq_number)) sent
          ≡ some (requests_all (get_model asked ∷ []) t.soc.trans_seq_number))
unfolding model_loop poll_round received model_event zcl_get_model_cb go_on perform
model_told stack stack' junk junk' reads reads' status nwk_addr ieee_addr dev_type dev_state name
      rest t word info model =
    let (sent, on_line, read) =
      heard_run (get_model (record { dst_addr = nwk_addr; endpoint = 0xFF; addr_mode = 2 }) ∷ [])
        t.soc (word, tt) in
    let none_left : length name - length name ≡ 0 = omega arith in
    let whole : take (length name) (name ++ rest) ≡ name =
      take-append (length name) name rest (omega arith) ∙ rw (none_left, append-nil) refl in
    let inside : leb (length name) (length (name ++ rest)) ≡ true =
      ground (arith, length-append name rest) in
    (
      record t {
        soc = zb_soc_get_model nwk_addr 0xFF 2 t.soc;
        output = t.output ++ (codes "Model ID:" ++ (name ++ 10 ∷ []));
      },
      sent,
      rw (model_loop, info, model, inside, whole) refl,
      refl,
      on_line,
      read,
    )
