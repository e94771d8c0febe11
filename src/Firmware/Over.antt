-- ===== src/Firmware/Over.antt =====
-- The tools end after six rounds without a message.
use lighting_gateway.Prelude.{
  ℕ, ◌+◌, ◌<◌, ◌∷◌, ◌≡◌, Bool-cases, List, Option, [], arith, inl, inr, leb, length, ltb, none,
  refl, some, suc,
}
use lighting_gateway.Prelude.Int.{ℤ, negsuc, eq_ℤ}
use lighting_gateway.Prelude.Reading.{Bytes}
use lighting_gateway.Soc.Command.Network.{zb_soc_bridge_start_nwk}
use lighting_gateway.Soc.Port.{Soc, zb_soc_open}
use lighting_gateway.Soc.Rpc.{
  tl_indication, new_dev_indication, zcl_get_state, zcl_get_level, zcl_get_hue, zcl_get_sat,
  zdo_simple_desc_rsp, zdo_leave_ind, util_get_dev_info_rsp, zcl_get_model,
}
use lighting_gateway.Soc.Rpc.Receive.{Outcome, handled, zb_soc_process_rpc}
use lighting_gateway.Firmware.{
  Tool, Progress, PollResult, running, exited, news, timeout, zb_soc_cbs, zcl_get_model_cb,
  model_event, received, timed_out, poll_round, go_on, model_loop, model_from, get_fw_model,
  zb_fw_start,
}

-- How often the chip kept silent.
abbrev pub timeouts : List PollResult → ℕ
timeouts [] = 0
timeouts (news _ _ _ ∷ ps) = timeouts ps
timeouts (timeout ∷ ps) = suc (timeouts ps)

-- The tool does not go on: it has ended, or read past the end of a message.
abbrev pub IsOver : Option Progress → Type 0
IsOver none = Unit
IsOver (some (exited t)) = Unit
IsOver (some (running t)) = ⊥

-- What is known of the tool if it goes on.
abbrev Runs : (Tool → Type 0) → Option Progress → Type 0
Runs P none = Unit
Runs P (some (exited t)) = Unit
Runs P (some (running t)) = P t

abbrev Counts : ℕ → Option Progress → Type 0
Counts n = Runs (λ t. t.timeout_cnt ≡ n)

zcl_get_model_cb-Counts : (n : ℕ) (model : Bytes) (t : Tool) → Counts n (zcl_get_model_cb model t)
unfolding zcl_get_model_cb
zcl_get_model_cb-Counts n [] t = tt
zcl_get_model_cb-Counts n (len ∷ chars) t = elim (Bool-cases (leb len (length chars))) [
  | inl inside ↦ rw (zcl_get_model_cb, inside) tt
  | inr outside ↦ rw (zcl_get_model_cb, outside) tt
]

received-Counts : (o : Outcome) (t : Tool) → Counts t.timeout_cnt (received o t)
unfolding received model_event
received-Counts (handled none) t = tt
received-Counts (handled (some none)) t = refl
received-Counts (handled (some (some (tl_indication _)))) t = refl
received-Counts (handled (some (some (new_dev_indication _)))) t = tt
received-Counts (handled (some (some (zcl_get_state _ _ _)))) t = tt
received-Counts (handled (some (some (zcl_get_level _ _ _)))) t = tt
received-Counts (handled (some (some (zcl_get_hue _ _ _)))) t = tt
received-Counts (handled (some (some (zcl_get_sat _ _ _)))) t = tt
received-Counts (handled (some (some (zdo_simple_desc_rsp _)))) t = tt
received-Counts (handled (some (some (zdo_leave_ind _)))) t = tt
received-Counts (handled (some (some (util_get_dev_info_rsp _ _ _ _ _)))) t = refl
received-Counts (handled (some (some (zcl_get_model model)))) t =
    zcl_get_model_cb-Counts t.timeout_cnt model t
received-Counts _ t = refl

timed_out-Runs :
    (t : Tool)
    → Runs (λ t'. (t'.timeout_cnt ≡ t.timeout_cnt + 1) × (t.timeout_cnt < 5)) (some (timed_out t))
unfolding timed_out
timed_out-Runs t = elim (Bool-cases (ltb 5 (t.timeout_cnt + 1))) [
  | inl over ↦ rw (timed_out, over) tt
  | inr within ↦
      (let few : t.timeout_cnt < 5 = ground (arith, within) in
        elim (Bool-cases (ltb 3 (t.timeout_cnt + 1))) [
          | inl late ↦ rw (timed_out, within, late) (refl, few)
          | inr early ↦ rw (timed_out, within, early) (refl, few)
        ])
]

go_on-IsOver :
    (P : Tool → Type 0) (loop : Tool → Option Progress) (r : Option Progress)
    → Runs P r
    → ((t : Tool) → P t → IsOver (loop t))
    → IsOver (go_on loop r)
unfolding go_on
go_on-IsOver P loop none h k = tt
go_on-IsOver P loop (some (exited t)) h k = tt
go_on-IsOver P loop (some (running t)) h k = k t h

model_loop-IsOver :
    (ps : List PollResult) (t : Tool)
    → 5 < t.timeout_cnt + timeouts ps
    → t.timeout_cnt < 6
    → IsOver (model_loop ps t)
unfolding model_loop poll_round
model_loop-IsOver [] t h few = absurd (omega arith)
model_loop-IsOver (news stack junk reads ∷ ps) t h few =
    let o = zb_soc_process_rpc zb_soc_cbs stack junk reads in
    go_on-IsOver (λ t'. t'.timeout_cnt ≡ t.timeout_cnt) (model_loop ps) (received o t)
      (received-Counts o t)
      (λ t' same. model_loop-IsOver ps t' (omega (arith, same)) (omega (arith, same)))
model_loop-IsOver (timeout ∷ ps) t h few =
    go_on-IsOver (λ t'. (t'.timeout_cnt ≡ t.timeout_cnt + 1) × (t.timeout_cnt < 5)) (model_loop ps)
      (some (timed_out t)) (timed_out-Runs t)
      (λ t' (more, still). model_loop-IsOver ps t' (omega (arith, more)) (omega (arith, more)))

model_from-IsOver :
    (before : Soc → Soc) (ps : List PollResult) (opened : ℤ × Soc)
    → 5 < timeouts ps
    → IsOver (model_from before ps opened)
unfolding model_from
model_from-IsOver before ps (fd, soc) h = elim (Bool-cases (eq_ℤ fd (negsuc 0))) [
  | inl fails ↦ rw (model_from, fails) tt
  | inr opens ↦ rw (model_from, opens) (model_loop-IsOver ps _ (omega arith) (omega arith))
]

-- In any run of rounds of either firmware tool in which the chip keeps silent for half a second at
-- least six times, whatever it says in the others, the tool has ended, or has read past the end of
-- a message.
pub tools-IsOver :
    (fd : ℤ) (ps : List PollResult) (soc : Soc)
    → 5 < timeouts ps
    → IsOver (get_fw_model fd ps soc) × IsOver (zb_fw_start fd ps soc)
unfolding get_fw_model zb_fw_start
tools-IsOver fd ps soc h = (
  model_from-IsOver (λ s. s) ps (zb_soc_open fd soc) h,
  model_from-IsOver zb_soc_bridge_start_nwk ps (zb_soc_open fd soc) h,
)
