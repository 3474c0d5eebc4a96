-- ===== src/Gdb/Progress.antt =====
-- The command loop of `gdb_exception` (application/gdb_stub/gdb.c) takes input in every round.
use or1k_spartan6_platform_x.Base.{
  ℕ, zero, suc, ◌/◌, ◌≤◌, ◌<◌, ◌≡◌, ◌≢◌, List, [], ◌∷◌, Option, none, some, arith, length, Bool,
  true, false, ◌==◌, Option-cases, inl, inr, if◌then◌else◌,
}
use or1k_spartan6_platform_x.Gdb.{
  Recv, Received, recv_char, recv_loop, recv_end, gdb_recv, gdb_send, hex_char,
}
use or1k_spartan6_platform_x.Gdb.Stub.{Stub, Outcome, answer, resume, overrun}
use or1k_spartan6_platform_x.Gdb.Session.{
  Talk, returned, out_of_bounds, waiting, rebooted, no_fuel, after, sending, settle, session,
  gdb_exception, gdb_syscall, say, put_text, sys_num, put_string, arg0, new_syscall_handler,
  new_irq_handler, user_syscall,
}

recv_loop-shorter :
    (input : List ℕ) (r r' : Recv) (rest : List ℕ)
    → recv_loop input r ≡ some (r', rest)
    → length rest < length input
unfolding recv_loop
recv_loop-shorter [] r r' rest e = absurd (ground arith)
recv_loop-shorter (c ∷ input) r r' rest e =
    ground (arith, recv_loop-shorter input (recv_char c r) r' rest)

recv_end-shorter :
    (r : Recv) (input : List ℕ) (out : Received)
    → recv_end r input ≡ some out
    → length out.input ≤ length input
unfolding recv_end
recv_end-shorter r [] out e = ground arith
recv_end-shorter r (a ∷ []) out e = ground arith
recv_end-shorter r (a ∷ b ∷ input) out e = ground arith

gdb_recv-shorter :
    (buf input : List ℕ) (out : Received)
    → gdb_recv buf input ≡ some out
    → length out.input < length input
unfolding gdb_recv
gdb_recv-shorter buf input out e =
    elim (Option-cases
      (recv_loop input (record { found_start = false; checksum = 0; index = 0; inbuffer = buf }))) [
        | inl q ↦ absurd (ground arith)
        | inr ((r, rest), q) ↦
            ground (arith, recv_loop-shorter input _ r rest q, recv_end-shorter r rest out)
      ]

gdb_send-shorter :
    (payload input out rest : List ℕ)
    → gdb_send payload input ≡ some (out, rest)
    → length rest < length input
unfolding gdb_send
gdb_send-shorter payload [] out rest e = absurd (ground arith)
gdb_send-shorter payload (c ∷ input) out rest e = elim (Option-cases (gdb_send payload input)) [
  | inl q ↦ ground arith
  | inr ((out', rest'), q) ↦ ground (arith, gdb_send-shorter payload input out' rest' q)
]

module _ {W : Type 0} where
  after-ends : (out : List ℕ) (t : Talk W) → t ≢ no_fuel → after out t ≢ no_fuel
  after-ends out (returned m sent input) h = ground arith
  after-ends out out_of_bounds h = ground arith
  after-ends out waiting h = ground arith
  after-ends out rebooted h = ground arith
  after-ends out no_fuel h = h

  sending-ends :
      (text input : List ℕ) (k : List ℕ → Talk W)
      → ((rest : List ℕ) → length rest < length input → k rest ≢ no_fuel)
      → sending text input k ≢ no_fuel
  sending-ends text input k h = elim (Option-cases (gdb_send text input)) [
    | inl q ↦ rw (q, sending) (ground arith)
    | inr ((out, rest), q) ↦
        rw (q, sending) (after-ends out (k rest) (h rest (gdb_send-shorter text input out rest q)))
  ]

  module _ (call : ℕ → Stub W → Stub W) where
    settle-ends :
        (o : Outcome W) (input : List ℕ) (k : Stub W → List ℕ → Talk W)
        → ((m : Stub W) (rest : List ℕ) → length rest < length input → k m rest ≢ no_fuel)
        → settle call o input k ≢ no_fuel
    settle-ends (answer text m) input k h = sending-ends text input (k m) (h m)
    settle-ends (resume m) input k h = ground arith
    settle-ends overrun input k h = ground arith

    session-ends :
        (fuel sig_val : ℕ) (input : List ℕ) (m : Stub W)
        → length input < fuel
        → session call fuel sig_val input m ≢ no_fuel
    unfolding session
    session-ends zero sig_val input m h = absurd (omega arith)
    session-ends (suc fuel) sig_val input m h = elim (Option-cases (gdb_recv m.inbuffer input)) [
      | inl q ↦ rw (q, session) (ground arith)
      | inr (r, q) ↦
          rw (q, session)
            (after-ends r.sent _ (
              settle-ends _ r.input _ λ m' rest lt.
                session-ends fuel sig_val rest m'
                  (omega (arith, lt, gdb_recv-shorter m.inbuffer input r q))))
    ]

    say-ends : (text input : List ℕ) (m : Stub W) → say call text input m ≢ no_fuel
    say-ends text input m =
        sending-ends text input (λ rest. returned m [] rest) (λ rest lt. ground arith)

    if-ends : (b : Bool) (x y : Talk W) → x ≢ no_fuel → y ≢ no_fuel → (if b then x else y) ≢ no_fuel
    if-ends true x y hx hy = hx
    if-ends false x y hx hy = hy

    put_text-ends :
        (text : Option (List ℕ)) (input : List ℕ) (m : Stub W)
        → put_text call text input m ≢ no_fuel
    put_text-ends none input m = ground arith
    put_text-ends (some text) input m = say-ends (b'O' ∷ text) input m

    returned-ends : (m : Stub W) (input : List ℕ) → returned m [] input ≢ no_fuel
    returned-ends m input = ground arith

    gdb_syscall-ends : (input : List ℕ) (m : Stub W) → gdb_syscall call input m ≢ no_fuel
    unfolding gdb_syscall
    gdb_syscall-ends input m = if-ends (sys_num m == 1) _ _ (say-ends (b'O' ∷ digits) input m) (
        if-ends (sys_num m == 2) _ _ (put_text-ends (put_string m.memory 255 (arg0 m)) input m) (
          if-ends (sys_num m == 3) _ _ (say-ends (b'W' ∷ digits) input m) (
            if-ends (sys_num m == 4) _ _ (returned-ends (new_syscall_handler m) input) (
              if-ends (sys_num m == 5) _ _ (returned-ends (new_irq_handler m) input) (
                if-ends (sys_num m == 6) _ _ (returned-ends m input) (
                  if-ends (sys_num m == 7) rebooted _ (ground arith)
                    (returned-ends (user_syscall call m) input)))))))
      where
        digits : List ℕ
        digits = hex_char (arg0 m / 16) ∷ hex_char (arg0 m) ∷ []

    -- With more fuel than characters of input, an exception never runs out of fuel.
    pub gdb_exception-ends :
        (fuel reason : ℕ) (input : List ℕ) (m : Stub W)
        → length input < fuel
        → gdb_exception call fuel reason input m ≢ no_fuel
    unfolding gdb_exception
    gdb_exception-ends fuel reason input m h = if-ends _ _ _ (gdb_syscall-ends input _) (
        if-ends _ _ _ (session-ends fuel 1 input _ h)
          (sending-ends _ input _ λ rest lt. session-ends fuel _ rest _ (omega (arith, lt))))
