-- ===== src/Gdb/Receive.antt =====
-- What crosses the debugger's link: `gdb_send` and `gdb_recv` of application/gdb_stub/gdb.c.
use or1k_spartan6_platform_x.Base.{
  ℕ, zero, suc, ◌≤◌, ◌≡◌, ◌≢◌, List, [], ◌∷◌, ◌++◌, some, refl, arith, length, ap, ◌∙◌, get_or,
  drop, ==-ne, sym, append-nil,
}
use or1k_spartan6_platform_x.Gdb.{max_buf_size, packet, gdb_send, gdb_recv, accepted, text_at}
use or1k_spartan6_platform_x.Gdb.Packet.{IsPayload, stored, gdb_recv-packet, text_at-stored}

-- A packet that `gdb_send` sends once is taken by `gdb_recv` with a `+`, and the command it
-- returns is the payload, for a payload of at most 510 characters without `$`, `#` and 0 and a
-- buffer of 512 bytes whose third byte is not a `:` behind the payload's termination.
pub gdb_recv-gdb_send :
    (payload buf rest input : List ℕ)
    → IsPayload payload
    → length buf ≡ max_buf_size
    → length payload ≤ 510
    → get_or (stored payload buf) 2 0 ≢ b':'
    → (gdb_send payload (b'+' ∷ input) ≡ some (packet payload, input))
      × (gdb_recv buf (packet payload ++ rest)
          ≡ some (record {
            offset = 0;
            inbuffer = stored payload buf;
            sent = b'+' ∷ [];
            input = rest;
          }))
      × (text_at (stored payload buf) ≡ payload)
unfolding gdb_send
gdb_recv-gdb_send payload buf rest input p e l n = (
  refl,
  gdb_recv-packet payload buf rest p e l ∙ rw (==-ne (get_or (stored payload buf) 2 0) b':' n) refl,
  text_at-stored payload (drop (suc (length payload)) buf) p,
)

third-kept :
    (c : ℕ) (buf : List ℕ)
    → length buf ≡ max_buf_size
    → get_or (stored (c ∷ []) buf) 2 0 ≡ get_or buf 2 0
third-kept c [] e = refl
third-kept c (x ∷ []) e = refl
third-kept c (x ∷ y ∷ buf) e = refl

-- A payload of one character other than `$`, `#` and 0 is acknowledged as one with a sequence
-- number, and the command is read from the fourth byte of the buffer of 512 bytes, where the
-- third byte is a `:` from an earlier packet.
pub gdb_recv-stale :
    (c : ℕ) (buf rest : List ℕ)
    → IsPayload (c ∷ [])
    → length buf ≡ max_buf_size
    → get_or buf 2 0 ≡ b':'
    → gdb_recv buf (packet (c ∷ []) ++ rest)
      ≡ some (record {
        offset = 3;
        inbuffer = c ∷ 0 ∷ drop 2 buf;
        sent = b'+' ∷ c ∷ 0 ∷ [];
        input = rest;
      })
gdb_recv-stale c buf rest p e h = gdb_recv-packet (c ∷ []) buf rest p e (omega arith) ∙ taken
  where
    taken :
        some (accepted (stored (c ∷ []) buf) rest)
        ≡ some (record {
          offset = 3;
          inbuffer = c ∷ 0 ∷ drop 2 buf;
          sent = b'+' ∷ c ∷ 0 ∷ [];
          input = rest;
        })
    taken = rw (third-kept c buf e ∙ h) refl

abbrev pub AllNak : List ℕ → Type 0
AllNak [] = Unit {0}
AllNak (c ∷ cs) = (c ≢ b'+') × AllNak cs

abbrev pub repeated : ℕ → List ℕ → List ℕ
repeated zero l = []
repeated (suc n) l = l ++ repeated n l

-- `gdb_send` sends its packet once, and once more for each character that is received before the
-- `+`.
pub gdb_send-repeats :
    (payload naks input : List ℕ)
    → AllNak naks
    → gdb_send payload (naks ++ b'+' ∷ input)
      ≡ some (packet payload ++ repeated (length naks) (packet payload), input)
unfolding gdb_send
gdb_send-repeats payload [] input h = ap (λ l. some (l, input)) (sym (append-nil (packet payload)))
gdb_send-repeats payload (c ∷ naks) input h =
    rw (==-ne c b'+' h.0, gdb_send-repeats payload naks input h.1) refl
