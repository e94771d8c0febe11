-- ===== src/Soc/Port.antt =====
-- The outgoing side of the serial port: `calcFcs`, `zbSocTransportWrite`, and the state that the
-- command functions of zbSocDriver/zbSocCmd.c share. The return value of `write` is ignored there,
-- so a call of it is the list of bytes that it was handed.
pub mod Checksum
pub mod Chunks
use lighting_gateway.Prelude.{
  if◌then◌else◌, ℕ, ◌%◌, ◌++◌, ◌+◌, ◌-◌, ◌∷◌, List, [], bit_xor, drop, get_or, leb, length, ltb,
  set, suc, take, zero,
}
use lighting_gateway.Prelude.Int.{ℤ, negsuc, is_negative, sub}
use lighting_gateway.Prelude.Reading.{Bytes}

-- `transSeqNumber`, and the calls of `write` on `serialPortFd`, the first one first.
pub record Soc : Type 0 where
  pub trans_seq_number : ℕ
  pub written : List Bytes

-- `while ((len--) != 0) result ^= msg[idx++];`
unfoldable pub fcs_loop : Bytes → ℕ → ℕ → ℕ → ℕ
fcs_loop msg zero idx result = result
fcs_loop msg (suc len) idx result = fcs_loop msg len (suc idx) (bit_xor result (get_or msg idx 0))

-- The index runs from 1 to `size - 1`, so the placeholder of the check sum takes part.
unfoldable pub calc_fcs : Bytes → Bytes
unfolding fcs_loop
calc_fcs msg = set msg (length msg - 1) (fcs_loop msg (length msg - 1) 1 0)

-- The loop of `zbSocTransportWrite`; `buf` begins at `offset`. `remain` becomes 0 here where it
-- becomes negative there, and both end the loop. The pieces are what `write` is handed; a failed or
-- short `write`, and the call of `tcflush` behind it, which may discard what is not yet sent, have no
-- part in it.
unfoldable pub transport_loop : ℕ → ℕ → Bytes → List Bytes
transport_loop zero remain buf = []
transport_loop (suc fuel) remain buf =
    let sub = if leb 8 remain then 8 else remain in
    let rest = transport_loop fuel (remain - 8) (drop 8 buf) in
    if ltb 0 remain then take sub buf ∷ rest else []

-- `len` is a `uint8_t`; the callers pass the size of the array.
unfoldable pub zb_soc_transport_write : Bytes → ℕ → Soc → Soc
unfolding transport_loop
zb_soc_transport_write buf len s = record s {
  written = s.written ++ transport_loop (len % 256) (len % 256) buf;
}

-- `transSeqNumber++`, on a `uint8_t`.
abbrev pub next_seq : Soc → Soc
next_seq s = record s { trans_seq_number = (s.trans_seq_number + 1) % 256 }

-- The two calls that end each command function.
unfoldable pub send : Bytes → Soc → Soc
unfolding calc_fcs zb_soc_transport_write
send cmd s = zb_soc_transport_write (calc_fcs cmd) (length cmd) s

-- `SB_FORCE_RUN` and `SB_FORCE_RUN_1`
abbrev pub force_boot : Bytes
force_boot = 0x07 ∷ 0xEF ∷ []

-- `zbSocOpen`; the argument is what `open` returns.
unfoldable pub zb_soc_open : ℤ → Soc → ℤ × Soc
unfolding zb_soc_transport_write
zb_soc_open fd s =
    if is_negative fd then (negsuc 0, s) else (fd, zb_soc_transport_write force_boot 2 s)
