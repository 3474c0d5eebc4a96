-- ===== src/Gdb.antt =====
-- The packet layer of application/gdb_stub/gdb.c: hexadecimal text, packets with checksums, and
-- their transmission. Characters are bytes. The debugger's side is the list of the characters
-- that `gdb_getchar` gives, and the characters of `gdb_putchar` are collected in order.
pub mod Hex
pub mod Number
pub mod Packet
pub mod Receive
pub mod Stub
pub mod Session
pub mod Commands
pub mod Progress
pub mod Strings
pub mod OnLine
use or1k_spartan6_platform_x.Base.{
  ℕ, zero, suc, ◌+◌, ◌-◌, ◌*◌, ◌/◌, ◌%◌, Bool, true, false, ◌&&◌, List, [], ◌∷◌, ◌++◌, Option, none,
  some, u8, u32, ltb, leb, ◌==◌, if◌then◌else◌, get_or, set, length,
}

abbrev pub max_buf_size : ℕ
max_buf_size = 512

-- `_hex_char[v & 0xf]`.
unfoldable pub hex_char : ℕ → ℕ
hex_char v = let d = v % 16 in if ltb d 10 then b'0' + d else b'a' + (d - 10)

-- `none` is -1.
unfoldable pub gdb_atoi_hex : ℕ → Option ℕ
gdb_atoi_hex ch =
    if leb b'a' ch && leb ch b'f'
    then some (ch - b'a' + 10)
    else if leb b'0' ch && leb ch b'9'
    then some (ch - b'0')
    else if leb b'A' ch && leb ch b'F'
    then some (ch - b'A' + 10)
    else none

-- An `int` digit as an `unsigned char`, and shifted left by 4.
abbrev pub low_digit : Option ℕ → ℕ
low_digit none = 255
low_digit (some v) = v

abbrev pub high_digit : Option ℕ → ℕ
high_digit none = 240
high_digit (some v) = u8 (v * 16)

-- The characters that are stored before the terminating 0, for the bytes of `mem`.
unfoldable pub gdb_mem2hex : List ℕ → List ℕ
gdb_mem2hex [] = []
gdb_mem2hex (b ∷ mem) = hex_char (b / 16) ∷ hex_char b ∷ gdb_mem2hex mem

-- `ch = hi << 4; ch |= lo;`. Only a digit that is -1 has bits in common with the other.
abbrev pub join_digits : Option ℕ → Option ℕ → ℕ
join_digits hi none = 255
join_digits none (some lo) = 240 + lo
join_digits (some hi) (some lo) = u8 (hi * 16) + lo

-- The bytes that are stored for `count` pairs of characters, `none` where the text is shorter.
unfoldable pub gdb_hex2mem : ℕ → List ℕ → Option (List ℕ)
gdb_hex2mem zero src = some []
gdb_hex2mem (suc count) [] = none
gdb_hex2mem (suc count) (a ∷ []) = none
gdb_hex2mem (suc count) (a ∷ b ∷ src) = elim (gdb_hex2mem count src) [
  | none ↦ none
  | some mem ↦ some (join_digits (gdb_atoi_hex a) (gdb_atoi_hex b) ∷ mem)
]

-- The loop of `gdb_gethexword` over a text up to its terminating 0: the rest of the text, the
-- number of digits and the 32-bit value.
unfoldable pub hexword_loop : List ℕ → ℕ → ℕ → List ℕ × ℕ × ℕ
hexword_loop [] count val = ([], count, val)
hexword_loop (c ∷ s) count val = elim (gdb_atoi_hex c) [
  | none ↦ (c ∷ s, count, val)
  | some v ↦ hexword_loop s (count + 1) (u32 (val * 16) + v)
]

unfoldable pub gdb_gethexword : List ℕ → List ℕ × ℕ × ℕ
gdb_gethexword s = hexword_loop s 0 0

-- The sum of a payload's characters as an `unsigned char`.
unfoldable pub checksum_of : ℕ → List ℕ → ℕ
checksum_of sum [] = sum
checksum_of sum (c ∷ cs) = checksum_of (u8 (sum + c)) cs

-- One round of `gdb_send`.
unfoldable pub packet : List ℕ → List ℕ
packet payload =
    let sum = checksum_of 0 payload in
    b'$' ∷ (payload ++ b'#' ∷ hex_char (sum / 16) ∷ hex_char sum ∷ [])

-- `gdb_send`: the packet is sent until a `+` is received. The result is what is sent and the input
-- that is left, `none` where the input ends and `gdb_getchar` waits for ever.
unfoldable pub gdb_send : List ℕ → List ℕ → Option (List ℕ × List ℕ)
gdb_send payload [] = none
gdb_send payload (ch ∷ input) =
    if ch == b'+' then some (packet payload, input) else elim (gdb_send payload input) [
      | none ↦ none
      | some (out, rest) ↦ some (packet payload ++ out, rest)
    ]

-- The local variables of `gdb_recv` and `_inbuffer`.
pub record Recv : Type 0 where
  pub found_start : Bool
  pub checksum : ℕ
  pub index : ℕ
  pub inbuffer : List ℕ

-- A character before the `#` that ends a packet.
unfoldable pub recv_char : ℕ → Recv → Recv
recv_char ch r =
    if ch == b'$'
    then record r { found_start = true; checksum = 0; index = 0 }
    else if r.found_start
    then record r {
      index = (if ltb r.index (max_buf_size - 1) then r.index + 1 else r.index);
      inbuffer = (if ltb r.index (max_buf_size - 1) then set r.inbuffer r.index ch else r.inbuffer);
      checksum = u8 (r.checksum + ch);
    }
    else r

-- The loop up to the `#`, with the input behind it.
unfoldable pub recv_loop : List ℕ → Recv → Option (Recv × List ℕ)
recv_loop [] r = none
recv_loop (ch ∷ input) r =
    if (ch == b'#') && r.found_start then some (r, input) else recv_loop input (recv_char ch r)

-- What `gdb_recv` returns: the position in `_inbuffer` that its pointer names, `_inbuffer`, the
-- characters sent, and the input that is left.
pub record Received : Type 0 where
  pub offset : ℕ
  pub inbuffer : List ℕ
  pub sent : List ℕ
  pub input : List ℕ

-- An empty command: a packet that is too long or whose checksum is wrong.
abbrev pub rejected : List ℕ → List ℕ → Received
rejected buf input = record { offset = 0; inbuffer = set buf 0 0; sent = []; input = input }

-- The acknowledgement of a packet with a right checksum, with a sequence number or without.
abbrev pub accepted : List ℕ → List ℕ → Received
accepted buf input =
    if get_or buf 2 0 == b':'
    then record {
      offset = 3;
      inbuffer = buf;
      sent = b'+' ∷ get_or buf 0 0 ∷ get_or buf 1 0 ∷ [];
      input = input;
    }
    else record { offset = 0; inbuffer = buf; sent = b'+' ∷ []; input = input }

-- The part behind the `#`.
unfoldable pub recv_end : Recv → List ℕ → Option Received
recv_end r input =
    let buf = set r.inbuffer r.index 0 in
    if ltb (r.index + 1) max_buf_size then check buf input else some (rejected buf input)
  where
    check : List ℕ → List ℕ → Option Received
    check buf [] = none
    check buf (a ∷ []) = none
    check buf (a ∷ b ∷ rest) =
        if r.checksum == u8 (high_digit (gdb_atoi_hex a) + low_digit (gdb_atoi_hex b))
        then some (accepted buf rest)
        else some (rejected buf rest)

unfoldable pub gdb_recv : List ℕ → List ℕ → Option Received
gdb_recv inbuffer input = elim (recv_loop input start) [
  | none ↦ none
  | some (r, rest) ↦ recv_end r rest
]
  where
    start : Recv
    start = record { found_start = false; checksum = 0; index = 0; inbuffer = inbuffer }

-- The text at a position of a buffer, up to its terminating 0.
unfoldable pub text_at : List ℕ → List ℕ
text_at [] = []
text_at (c ∷ cs) = if c == 0 then [] else c ∷ text_at cs
