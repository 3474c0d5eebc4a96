-- ===== src/Gdb/Packet.antt =====
-- Sending and receiving packets: `gdb_send` and `gdb_recv` of application/gdb_stub/gdb.c.
use or1k_spartan6_platform_x.Base.{
  ℕ, suc, ◌+◌, ◌/◌, ◌≤◌, ◌<◌, ◌≡◌, ◌≢◌, List, [], ◌∷◌, ◌++◌, some, refl, arith, length, u8, ap, ◌∙◌,
  set, drop, append_assoc, true, false, ◌==◌, ==-ne, ==-refl, sym, if◌then◌else◌,
}
use or1k_spartan6_platform_x.Gdb.{
  max_buf_size, hex_char, gdb_atoi_hex, checksum_of, packet, Recv, recv_char, recv_loop, recv_end,
  gdb_recv, Received, accepted, rejected, text_at, high_digit, low_digit,
}
use or1k_spartan6_platform_x.Gdb.Hex.{gdb_atoi_hex-hex_char}

-- Characters that may stand in a payload.
abbrev pub IsPayload : List ℕ → Type 0
IsPayload [] = Unit {0}
IsPayload (c ∷ cs) = (c ≢ b'$') × (c ≢ b'#') × (c ≢ 0) × IsPayload cs

checksum_of-lt : (cs : List ℕ) (sum : ℕ) → sum < 256 → checksum_of sum cs < 256
unfolding checksum_of
checksum_of-lt [] sum h = h
checksum_of-lt (c ∷ cs) sum h = checksum_of-lt cs (u8 (sum + c)) (omega arith)

set-append : (pre old : List ℕ) (o v : ℕ) → set (pre ++ o ∷ old) (length pre) v ≡ pre ++ v ∷ old
set-append [] old o v = refl
set-append (x ∷ pre) old o v = ap (λ l. x ∷ l) (set-append pre old o v)

append-snoc : (pre : List ℕ) (c : ℕ) (l : List ℕ) → (pre ++ c ∷ []) ++ l ≡ pre ++ c ∷ l
append-snoc [] c l = refl
append-snoc (x ∷ pre) c l = ap (λ l. x ∷ l) (append-snoc pre c l)

length-snoc : (pre : List ℕ) (c : ℕ) → length (pre ++ c ∷ []) ≡ length pre + 1
length-snoc [] c = refl
length-snoc (x ∷ pre) c = rw (length-snoc pre c) (omega arith)

abbrev reading : ℕ → ℕ → List ℕ → Recv
reading sum index buf = record { found_start = true; checksum = sum; index = index; inbuffer = buf }

recv_char-payload :
    (c sum : ℕ) (pre old : List ℕ) (o : ℕ)
    → c ≢ b'$'
    → length pre < 511
    → recv_char c (reading sum (length pre) (pre ++ o ∷ old))
      ≡ reading (u8 (sum + c)) (length pre + 1) (pre ++ c ∷ old)
unfolding recv_char
recv_char-payload c sum pre old o ne h = ground (arith, set-append pre old o c)

recv_loop-payload :
    (cs pre old rest : List ℕ) (sum : ℕ)
    → IsPayload cs
    → length cs ≤ length old
    → length pre + length cs ≤ 511
    → recv_loop (cs ++ b'#' ∷ rest) (reading sum (length pre) (pre ++ old))
      ≡ some (
        reading (checksum_of sum cs) (length pre + length cs) (pre ++ (cs ++ drop (length cs) old)),
        rest,
      )
unfolding recv_loop checksum_of
recv_loop-payload [] pre old rest sum p l h = ground arith
recv_loop-payload (c ∷ cs) pre [] rest sum p l h = absurd (omega arith)
recv_loop-payload (c ∷ cs) pre (o ∷ old) rest sum p l h =
    rw
      (
        ==-ne c b'#' p.1,
        recv_char-payload c sum pre old o p.0 (omega arith),
        sym (length-snoc pre c),
        sym (append-snoc pre c old),
        total,
        sym (append-snoc pre c (cs ++ drop (length cs) old)),
      )
      (recv_loop-payload cs (pre ++ c ∷ []) old rest (u8 (sum + c)) p.3 (omega arith)
        (rw (length-snoc pre c) (omega arith)))
  where
    total : length pre + suc (length cs) ≡ length (pre ++ c ∷ []) + length cs
    total = rw (length-snoc pre c) (omega arith)

-- `_inbuffer` after a payload is received and terminated.
abbrev pub stored : List ℕ → List ℕ → List ℕ
stored payload buf = payload ++ 0 ∷ drop (suc (length payload)) buf

-- What `gdb_recv` makes of a payload and the two characters behind its `#`.
abbrev pub framed : List ℕ → List ℕ → ℕ → ℕ → List ℕ → Received
framed payload buf a b rest =
    if checksum_of 0 payload == u8 (high_digit (gdb_atoi_hex a) + low_digit (gdb_atoi_hex b))
    then accepted (stored payload buf) rest
    else rejected (stored payload buf) rest

terminate :
    (payload buf : List ℕ)
    → length payload < length buf
    → set (payload ++ drop (length payload) buf) (length payload) 0 ≡ stored payload buf
terminate payload [] h = absurd (omega arith)
terminate [] (o ∷ buf) h = refl
terminate (c ∷ payload) (o ∷ buf) h = ap (λ l. c ∷ l) (terminate payload buf (omega arith))

recv_end-framed :
    (payload buf rest : List ℕ) (a b n : ℕ)
    → n ≡ length payload
    → length payload < length buf
    → length payload ≤ 510
    → recv_end
        (reading (checksum_of 0 payload) n (payload ++ drop (length payload) buf))
        (a ∷ b ∷ rest)
      ≡ some (framed payload buf a b rest)
unfolding recv_end
recv_end-framed payload buf rest a b n e h l = rw (e, terminate payload buf h) (ground arith)

recv_loop-start :
    (buf input : List ℕ)
    → recv_loop
        (b'$' ∷ input)
        (record { found_start = false; checksum = 0; index = 0; inbuffer = buf })
      ≡ recv_loop input (reading 0 0 buf)
unfolding recv_loop recv_char
recv_loop-start buf input = refl

gdb_recv-found :
    (input buf rest : List ℕ) (r : Recv)
    → recv_loop input (record { found_start = false; checksum = 0; index = 0; inbuffer = buf })
      ≡ some (r, rest)
    → gdb_recv buf input ≡ recv_end r rest
unfolding gdb_recv
gdb_recv-found input buf rest r h = ground (arith, h)

pub gdb_recv-framed :
    (payload buf rest : List ℕ) (a b : ℕ)
    → IsPayload payload
    → length buf ≡ max_buf_size
    → length payload ≤ 510
    → gdb_recv buf (b'$' ∷ (payload ++ b'#' ∷ a ∷ b ∷ rest)) ≡ some (framed payload buf a b rest)
gdb_recv-framed payload buf rest a b p e l =
    gdb_recv-found (b'$' ∷ (payload ++ b'#' ∷ a ∷ b ∷ rest)) buf (a ∷ b ∷ rest)
      (reading (checksum_of 0 payload) (0 + length payload) (payload ++ drop (length payload) buf))
      (recv_loop-start buf (payload ++ b'#' ∷ a ∷ b ∷ rest)
        ∙ recv_loop-payload payload [] buf (a ∷ b ∷ rest) 0 p (omega arith) (omega arith))
    ∙ recv_end-framed payload buf rest a b (0 + length payload) (omega arith) (omega arith) l

digits_of_checksum :
    (s : ℕ)
    → s < 256
    → u8 (high_digit (gdb_atoi_hex (hex_char (s / 16))) + low_digit (gdb_atoi_hex (hex_char s))) ≡ s
digits_of_checksum s h = rw (gdb_atoi_hex-hex_char (s / 16), gdb_atoi_hex-hex_char s) (omega arith)

pub gdb_recv-packet :
    (payload buf rest : List ℕ)
    → IsPayload payload
    → length buf ≡ max_buf_size
    → length payload ≤ 510
    → gdb_recv buf (packet payload ++ rest) ≡ some (accepted (stored payload buf) rest)
unfolding packet
gdb_recv-packet payload buf rest p e l =
    rw
      (append_assoc payload
        (b'#' ∷ hex_char (checksum_of 0 payload / 16) ∷ hex_char (checksum_of 0 payload) ∷ []) rest)
      (gdb_recv-framed payload buf rest (hex_char (checksum_of 0 payload / 16))
          (hex_char (checksum_of 0 payload)) p e l
        ∙ rw
            (
              digits_of_checksum (checksum_of 0 payload) (checksum_of-lt payload 0 (omega arith)),
              ==-refl (checksum_of 0 payload),
            )
            refl)

pub text_at-stored :
    (payload rest : List ℕ) → IsPayload payload → text_at (payload ++ 0 ∷ rest) ≡ payload
unfolding text_at
text_at-stored [] rest p = refl
text_at-stored (c ∷ payload) rest p =
    rw (==-ne c 0 p.2) (ap (λ l. c ∷ l) (text_at-stored payload rest p.3))
