-- ===== src/GdbHw.antt =====
-- application/gdb_stub/gdb_hw.c: the serial line of the debugger, with its ring of received
-- characters. A character is its byte.
pub mod Queue
pub mod Order
pub mod Output
use or1k_spartan6_platform_x.Base.{
  ℕ, zero, suc, ◌+◌, Bool, true, false, Option, none, some, List, [], ◌∷◌, ◌++◌, length, ◌==◌,
  if◌then◌else◌, bit_or,
}
use or1k_spartan6_platform_x.Base.Memory.{update}
use or1k_spartan6_platform_x.Base.Partial.{◌>>=◌}

abbrev pub max_rx_buf : ℕ
max_rx_buf = 128

-- `_rx_buf`, `_rx_head` and `_rx_tail`.
pub record Ring : Type 0 where
  pub rx_buf : ℕ → ℕ
  pub rx_head : ℕ
  pub rx_tail : ℕ

-- The ring and the UART: at each look at the status, the character that is available, if one is;
-- the characters sent, and for how many looks the UART is busy with each of them.
pub record Console : Type 0 where
  pub ring : Ring
  pub line : List (Option ℕ)
  pub sent : List ℕ
  pub busy : ℕ → ℕ

-- `if (++p == MAX_RX_BUF) p = 0`.
unfoldable pub advance : ℕ → ℕ
advance p = if p + 1 == max_rx_buf then 0 else p + 1

unfoldable pub store : Ring → ℕ → Ring
store r c = record r { rx_buf = update r.rx_buf r.rx_tail c; rx_tail = advance r.rx_tail }

unfoldable pub look : List (Option ℕ) → Ring → Ring × List (Option ℕ)
look [] r = (r, [])
look (none ∷ rest) r = (r, rest)
look (some c ∷ rest) r = (store r c, rest)

unfoldable pub gdb_pollrx : Console → Console
gdb_pollrx s = let (r, rest) = look s.line s.ring in record s { ring = r; line = rest }

unfoldable pub wait_sent : ℕ → Console → Console
wait_sent zero s = s
wait_sent (suc n) s = wait_sent n (gdb_pollrx s)

unfoldable pub gdb_putchar : ℕ → Console → Console
gdb_putchar c s = wait_sent (s.busy (length s.sent)) (record s { sent = s.sent ++ (c ∷ []) })

-- The string to before its terminating 0.
unfoldable pub gdb_putstr : List ℕ → Console → Console
gdb_putstr [] s = s
gdb_putstr (c ∷ cs) s = gdb_putstr cs (gdb_putchar c (if c == 10 then gdb_putchar 13 s else s))

unfoldable pub take_char : Ring → Option (ℕ × Ring)
take_char r =
    if r.rx_head == r.rx_tail
    then none
    else some (r.rx_buf r.rx_head, record r { rx_head = advance r.rx_head })

-- The character that was taken ends the loop.
abbrev pub or_again :
    Option (ℕ × Ring)
    → List (Option ℕ)
    → Option (ℕ × Ring × List (Option ℕ))
    → Option (ℕ × Ring × List (Option ℕ))
or_again none rest again = again
or_again (some t) rest again = some (t.0, t.1, rest)

-- The loop of `gdb_getchar`. At the end of what the line brings it waits for ever, which is `none`.
unfoldable pub getchar_loop : List (Option ℕ) → Ring → Option (ℕ × Ring × List (Option ℕ))
getchar_loop [] r = or_again (take_char r) [] none
getchar_loop (e ∷ rest) r =
    let polled = (look (e ∷ rest) r).0 in
    or_again (take_char polled) rest (getchar_loop rest polled)

unfoldable pub gdb_getchar : Console → Option (ℕ × Console)
gdb_getchar s = do t ← getchar_loop s.line s.ring; some (t.0, record s { ring = t.1; line = t.2 })

-- The supervision register with the cache flush bits set.
unfoldable pub gdb_flush_cache : ℕ → ℕ
gdb_flush_cache sr = bit_or (bit_or sr 131072) 262144

unfoldable pub flush_dcache : ℕ → ℕ
flush_dcache sr = bit_or sr 262144
