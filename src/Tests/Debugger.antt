-- ===== src/Tests/Debugger.antt =====
-- The debugger's link on concrete packets.
use or1k_spartan6_platform_x.Base.{ℕ, ◌≡◌, refl, arith, List, [], ◌∷◌, ◌++◌, some, replicate}
use or1k_spartan6_platform_x.Gdb.{gdb_send, gdb_recv, packet, text_at}
use or1k_spartan6_platform_x.Gdb.Packet.{stored}
use or1k_spartan6_platform_x.Gdb.Receive.{gdb_recv-gdb_send}

abbrev fresh : List ℕ
fresh = replicate 512 0

-- `m10,4`.
abbrev request : List ℕ
request = b'm' ∷ b'1' ∷ b'0' ∷ b',' ∷ b'4' ∷ []

gdb_recv-gdb_send_example :
    (gdb_send request (b'+' ∷ []) ≡ some (packet request, []))
    × (gdb_recv fresh (packet request ++ b'+' ∷ [])
        ≡ some (record {
          offset = 0;
          inbuffer = stored request fresh;
          sent = b'+' ∷ [];
          input = b'+' ∷ [];
        }))
    × (text_at (stored request fresh) ≡ request)
gdb_recv-gdb_send_example =
    gdb_recv-gdb_send request fresh (b'+' ∷ []) [] (ground arith) refl (omega arith) (omega arith)
