-- ===== src/Tests/Line.antt =====
-- Packets of the debugger over the serial line, the checksum by the unit, and a wait.
use or1k_spartan6_platform_x.Base.{
  ℕ, ◌≡◌, refl, arith, none, some, map, List, [], ◌∷◌, ◌++◌, replicate,
}
use mathlib.Core.Option
use or1k_spartan6_platform_x.GdbHw.{Ring, Console}
use or1k_spartan6_platform_x.GdbHw.Order.{IsPending}
use or1k_spartan6_platform_x.Gdb.{packet, gdb_send, gdb_recv, hex_char, checksum_of}
use or1k_spartan6_platform_x.Gdb.{recv_loop, recv_char, recv_end, gdb_atoi_hex}
use or1k_spartan6_platform_x.Gdb.OnLine.{recv_on}
use or1k_spartan6_platform_x.Gdb.OnLine.Sent.{Sends, send_on-gdb_send}
use or1k_spartan6_platform_x.Gdb.OnLine.Taken.{recv_on-gdb_recv}
use or1k_spartan6_platform_x.Crc32.{crc32}
use or1k_spartan6_platform_x.HwMath.{Unit32, crc32_hw, mulsi3, clock, idle}
use or1k_spartan6_platform_x.HwMath.Checksum.{crc32_hw-crc32}
use or1k_spartan6_platform_x.Timer.{timer_sleep}
use or1k_spartan6_platform_x.Timer.Sleep.{counter, behind, timer_sleep-behind}

abbrev drained : Ring
drained = record { rx_buf = λ i. 0; rx_head = 100; rx_tail = 100 }

-- The debugger refuses the first packet and takes the second one.
abbrev refusing : Console
refusing = record {
  ring = drained;
  line = none ∷ none ∷ some b'-' ∷ none ∷ some b'+' ∷ some b'$' ∷ [];
  sent = [];
  busy = λ k. 1;
}

abbrev ok_text : List ℕ
ok_text = b'O' ∷ b'K' ∷ []

send_on-gdb_send_example : Sends 4 ok_text refusing (packet ok_text ++ packet ok_text) (b'$' ∷ [])
unfolding gdb_send packet hex_char checksum_of
send_on-gdb_send_example =
    send_on-gdb_send (b'-' ∷ b'+' ∷ b'$' ∷ []) 4 1 ok_text (packet ok_text ++ packet ok_text)
      (b'$' ∷ []) refusing [] refl (λ k. omega arith)
      ((omega arith, omega arith, refl, λ i lt. absurd (omega arith)), refl) (omega arith)
      (omega arith)

-- `$?#3f` with noise before it.
abbrev asking : Console
asking = record {
  ring = drained;
  line = some b'+' ∷ none ∷ some b'$' ∷ some b'?' ∷ some b'#' ∷ none ∷ some b'3' ∷ some b'f' ∷ [];
  sent = [];
  busy = λ k. 2;
}

recv_on-gdb_recv_example :
    (t : Console) × (q : List ℕ) × (recv_on 9 (replicate 512 0) asking
      ≡ some (0, b'?' ∷ replicate 511 0, t))
    × IsPending t q []
    × (t.sent ≡ b'+' ∷ [])
unfolding gdb_recv recv_loop recv_char recv_end gdb_atoi_hex
recv_on-gdb_recv_example =
    recv_on-gdb_recv (b'+' ∷ b'$' ∷ b'?' ∷ b'#' ∷ b'3' ∷ b'f' ∷ []) (replicate 512 0) 9 2
      (record { offset = 0; inbuffer = b'?' ∷ replicate 511 0; sent = b'+' ∷ []; input = [] })
      asking [] refl (λ k. omega arith)
      ((omega arith, omega arith, refl, λ i lt. absurd (omega arith)), refl) (omega arith)
      (omega arith)

abbrev cold : Unit32
cold = record { crc = 0; a = 0; b = 0; product = 0 }

crc32_hw-crc32_example :
    crc32_hw 3 (84 ∷ 101 ∷ 115 ∷ 116 ∷ []) cold ≡ crc32 (84 ∷ 101 ∷ 115 ∷ 116 ∷ [])
crc32_hw-crc32_example = crc32_hw-crc32 3 (84 ∷ 101 ∷ 115 ∷ 116 ∷ []) cold (omega arith)

times : mulsi3 1 4294967281 48 cold ≡ 4294966576
unfolding mulsi3 clock idle
times = refl

-- A wait of ten counts over the wrap of the counter.
timer_sleep-behind_example :
    timer_sleep (4294967290 ∷ map (counter 4294967290) (1 ∷ 6 ∷ 9 ∷ 12 ∷ 13 ∷ [])) 10
    ≡ Option.map (map (counter 4294967290)) (behind 10 (1 ∷ 6 ∷ 9 ∷ 12 ∷ 13 ∷ []))
timer_sleep-behind_example =
    timer_sleep-behind 4294967290 10 (1 ∷ 6 ∷ 9 ∷ 12 ∷ 13 ∷ []) (omega arith) (omega arith)
      (omega arith)
