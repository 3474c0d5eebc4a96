-- ===== src/Gdb/OnLine.antt =====
-- `gdb_send` and `gdb_recv` of application/gdb_stub/gdb.c over the serial line of
-- application/gdb_stub/gdb_hw.c, where characters wait in the ring and come in while others go out.
pub mod Sent
pub mod Loop
pub mod Taken
use or1k_spartan6_platform_x.Base.{
  ℕ, zero, suc, ◌+◌, Bool, true, false, ◌&&◌, Option, none, some, List, [], ◌∷◌, u8, ltb, ◌==◌,
  if◌then◌else◌, get_or, set,
}
use or1k_spartan6_platform_x.GdbHw.{Console, gdb_putchar, gdb_getchar}
use or1k_spartan6_platform_x.Gdb.{
  max_buf_size, gdb_atoi_hex, high_digit, low_digit, packet, Recv, recv_char,
}

-- `gdb_putchar` for each of the characters.
unfoldable pub put_all : List ℕ → Console → Console
put_all [] s = s
put_all (c ∷ cs) s = put_all cs (gdb_putchar c s)

-- A `+` ends the sending, and any other character begins it anew.
abbrev pub or_resend : Option (ℕ × Console) → (Console → Option Console) → Option Console
or_resend none again = none
or_resend (some (ch, t)) again = if ch == b'+' then some t else again t

-- `none` is the wait for a character that never comes, or the end of the fuel.
unfoldable pub send_on : ℕ → List ℕ → Console → Option Console
send_on zero payload s = none
send_on (suc fuel) payload s =
    or_resend (gdb_getchar (put_all (packet payload) s)) (send_on fuel payload)

-- A `#` behind the start of a packet ends the loop of `gdb_recv`.
abbrev pub or_next :
    Option (ℕ × Console)
    → Recv
    → (Recv → Console → Option (Recv × Console))
    → Option (Recv × Console)
or_next none r next = none
or_next (some (ch, t)) r next =
    if (ch == b'#') && r.found_start then some (r, t) else next (recv_char ch r) t

unfoldable pub recv_loop_on : ℕ → Recv → Console → Option (Recv × Console)
recv_loop_on zero r s = none
recv_loop_on (suc fuel) r s = or_next (gdb_getchar s) r (recv_loop_on fuel)

-- The position in `_inbuffer`, `_inbuffer` and the line behind `gdb_recv`.
abbrev pub Answer : Type 0
Answer = ℕ × List ℕ × Console

abbrev pub acknowledge : List ℕ → Console → Answer
acknowledge buf s =
    if get_or buf 2 0 == b':'
    then (3, buf, put_all (b'+' ∷ get_or buf 0 0 ∷ get_or buf 1 0 ∷ []) s)
    else (0, buf, put_all (b'+' ∷ []) s)

abbrev pub judge : ℕ → List ℕ → ℕ → Option (ℕ × Console) → Option Answer
judge sum buf a none = none
judge sum buf a (some (b, u)) =
    if sum == u8 (high_digit (gdb_atoi_hex a) + low_digit (gdb_atoi_hex b))
    then some (acknowledge buf u)
    else some (0, set buf 0 0, u)

abbrev pub second_digit : ℕ → List ℕ → Option (ℕ × Console) → Option Answer
second_digit sum buf none = none
second_digit sum buf (some (a, t)) = judge sum buf a (gdb_getchar t)

-- The two digits of the checksum are read.
abbrev pub recv_end_on : Recv → Console → Option Answer
recv_end_on r s =
    let buf = set r.inbuffer r.index 0 in
    if ltb (r.index + 1) max_buf_size
    then second_digit r.checksum buf (gdb_getchar s)
    else some (0, set buf 0 0, s)

abbrev pub behind_loop : Option (Recv × Console) → Option Answer
behind_loop none = none
behind_loop (some (r, t)) = recv_end_on r t

unfoldable pub recv_on : ℕ → List ℕ → Console → Option Answer
recv_on fuel inbuffer s = behind_loop (
    recv_loop_on fuel (record { found_start = false; checksum = 0; index = 0; inbuffer = inbuffer })
      s)
