-- ===== src/Gdb/OnLine/Taken.antt =====
-- What `gdb_recv` of application/gdb_stub/gdb.c takes from the line.
use or1k_spartan6_platform_x.Base.{
  ℕ, ◌+◌, ◌*◌, ◌<◌, ◌≤◌, ◌≡◌, refl, ap, sym, subst, ◌∙◌, arith, Bool, true, false, Option, none,
  some, List, [], ◌∷◌, ◌++◌, length, append-nil, u8, ltb, ◌==◌, if◌then◌else◌, get_or, set,
}
use or1k_spartan6_platform_x.GdbHw.{Console, gdb_getchar}
use or1k_spartan6_platform_x.GdbHw.Order.{IsPending, gdb_getchar-shrinks}
use or1k_spartan6_platform_x.Gdb.{
  gdb_atoi_hex, high_digit, low_digit, Recv, recv_loop, recv_end, gdb_recv, Received, accepted,
  rejected,
}
use or1k_spartan6_platform_x.Gdb.OnLine.{
  put_all, recv_loop_on, Answer, acknowledge, judge, second_digit, recv_end_on, behind_loop,
  recv_on,
}
use or1k_spartan6_platform_x.Gdb.OnLine.Sent.{IsQuick, put_all-IsPending}
use or1k_spartan6_platform_x.Gdb.OnLine.Loop.{some_injective, recv_loop_on-Stops}

-- What `recv_on` leaves behind where `gdb_recv` leaves `rc`.
abbrev pub Takes : Option Answer → Console → Received → Type 0
Takes answer s rc =
    (t : Console) × (q : List ℕ) × (answer ≡ some (rc.offset, rc.inbuffer, t))
    × IsPending t q rc.input
    × (t.sent ≡ s.sent ++ rc.sent)

acknowledge-Takes :
    (b : ℕ) (buf : List ℕ) (s : Console) (q rest : List ℕ)
    → IsQuick b s
    → IsPending s q rest
    → length q + 3 * b < 128
    → Takes (some (acknowledge buf s)) s (accepted buf rest)
acknowledge-Takes b buf s q rest quick h room = answered (get_or buf 2 0 == b':')
  where
    numbered : List ℕ
    numbered = b'+' ∷ get_or buf 0 0 ∷ get_or buf 1 0 ∷ []

    answered :
        (v : Bool)
        → Takes
            (some (
              if v
              then (3, buf, put_all (b'+' ∷ get_or buf 0 0 ∷ get_or buf 1 0 ∷ []) s)
              else (0, buf, put_all (b'+' ∷ []) s)))
            s
            (if v
              then record {
                offset = 3;
                inbuffer = buf;
                sent = b'+' ∷ get_or buf 0 0 ∷ get_or buf 1 0 ∷ [];
                input = rest;
              }
              else record { offset = 0; inbuffer = buf; sent = b'+' ∷ []; input = rest })
    answered true =
        let (q1, h1, _, sent, _) =
          put_all-IsPending (b'+' ∷ get_or buf 0 0 ∷ get_or buf 1 0 ∷ []) b s q rest quick h
            (omega arith) in
        (put_all (b'+' ∷ get_or buf 0 0 ∷ get_or buf 1 0 ∷ []) s, q1, refl, h1, sent)
    answered false =
        let (q1, h1, _, sent, _) = put_all-IsPending (b'+' ∷ []) b s q rest quick h (omega arith) in
        (put_all (b'+' ∷ []) s, q1, refl, h1, sent)

-- The answer to the digits, by the test of the checksum.
judged-Takes :
    (v : Bool) (b : ℕ) (buf : List ℕ) (s t : Console) (q rest : List ℕ) (rc : Received)
    → (if v then some (accepted buf rest) else some (rejected buf rest)) ≡ some rc
    → IsQuick b t
    → IsPending t q rest
    → length q + 3 * b < 128
    → t.sent ≡ s.sent
    → Takes (if v then some (acknowledge buf t) else some (0, set buf 0 0, t)) s rc
judged-Takes true b buf s t q rest rc e quick h room same =
    let (u, q1, run, h1, sent) = acknowledge-Takes b buf t q rest quick h room in
    subst (λ x. Takes (some (acknowledge buf t)) s x) (some_injective (accepted buf rest) rc e)
      (u, q1, run, h1, sent ∙ ap (λ l. l ++ (accepted buf rest).sent) same)
judged-Takes false b buf s t q rest rc e quick h room same =
    subst (λ x. Takes (some (0, set buf 0 0, t)) s x) (some_injective (rejected buf rest) rc e)
      (t, q, refl, h, same ∙ sym (append-nil s.sent))

-- The two digits that come in next.
second_digit-Takes :
    (sum x y b : ℕ) (buf rest : List ℕ) (rc : Received) (s : Console) (q : List ℕ)
    → (if sum == u8 (high_digit (gdb_atoi_hex x) + low_digit (gdb_atoi_hex y))
        then some (accepted buf rest)
        else some (rejected buf rest))
      ≡ some rc
    → IsQuick b s
    → IsPending s q (x ∷ y ∷ rest)
    → length q + 3 * b < 127
    → Takes (second_digit sum buf (gdb_getchar s)) s rc
second_digit-Takes sum x y b buf rest rc s q e quick h room =
    let (t, q1, run1, h1, few1, sent1, busy1) =
      gdb_getchar-shrinks s q x (y ∷ rest) h (omega arith) in
    let (u, q2, run2, h2, few2, sent2, busy2) = gdb_getchar-shrinks t q1 y rest h1 (omega arith) in
    subst (λ a. Takes a s rc)
      (sym (ap (λ a. second_digit sum buf a) run1 ∙ ap (λ a. judge sum buf x a) run2))
      (judged-Takes (sum == u8 (high_digit (gdb_atoi_hex x) + low_digit (gdb_atoi_hex y))) b buf s u
        q2 rest rc e (λ k. subst (λ f. f k ≤ b) (sym (busy2 ∙ busy1)) (quick k)) h2 (omega arith)
        (sent2 ∙ sent1))

-- The test of the length, and the two digits.
recv_end_on-Takes :
    (input : List ℕ) (b : ℕ) (r : Recv) (rc : Received) (s : Console) (q : List ℕ)
    → recv_end r input ≡ some rc
    → IsQuick b s
    → IsPending s q input
    → length q + 3 * b < 127
    → Takes (recv_end_on r s) s rc
unfolding recv_end
recv_end_on-Takes [] b r rc s q e quick h room = ended (ltb (r.index + 1) 512) e
  where
    ended :
        (v : Bool)
        → (if v then none else some (rejected (set r.inbuffer r.index 0) [])) ≡ some rc
        → Takes
            (if v
              then second_digit r.checksum (set r.inbuffer r.index 0) (gdb_getchar s)
              else some (0, set (set r.inbuffer r.index 0) 0 0, s))
            s
            rc
    ended true e = cc
    ended false e =
        judged-Takes false b (set r.inbuffer r.index 0) s s q [] rc e quick h (omega arith) refl
recv_end_on-Takes (x ∷ []) b r rc s q e quick h room = ended (ltb (r.index + 1) 512) e
  where
    ended :
        (v : Bool)
        → (if v then none else some (rejected (set r.inbuffer r.index 0) (x ∷ []))) ≡ some rc
        → Takes
            (if v
              then second_digit r.checksum (set r.inbuffer r.index 0) (gdb_getchar s)
              else some (0, set (set r.inbuffer r.index 0) 0 0, s))
            s
            rc
    ended true e = cc
    ended false e =
        judged-Takes false b (set r.inbuffer r.index 0) s s q (x ∷ []) rc e quick h (omega arith)
          refl
recv_end_on-Takes (x ∷ y ∷ rest) b r rc s q e quick h room = ended (ltb (r.index + 1) 512) e
  where
    ended :
        (v : Bool)
        → (if v
            then (if r.checksum == u8 (high_digit (gdb_atoi_hex x) + low_digit (gdb_atoi_hex y))
                then some (accepted (set r.inbuffer r.index 0) rest)
                else some (rejected (set r.inbuffer r.index 0) rest))
            else some (rejected (set r.inbuffer r.index 0) (x ∷ y ∷ rest)))
          ≡ some rc
        → Takes
            (if v
              then second_digit r.checksum (set r.inbuffer r.index 0) (gdb_getchar s)
              else some (0, set (set r.inbuffer r.index 0) 0 0, s))
            s
            rc
    ended true e =
        second_digit-Takes r.checksum x y b (set r.inbuffer r.index 0) rest rc s q e quick h room
    ended false e =
        judged-Takes false b (set r.inbuffer r.index 0) s s q (x ∷ y ∷ rest) rc e quick h
          (omega arith) refl

-- Over the line gdb_recv returns what it returns for the characters that wait in the ring or come in:
-- the same position and buffer, with the same answer sent and the same characters left, in their order,
-- with fuel for each of them. The UART is busy for at most `b` looks with a character, and the ring has
-- room for one for each look of an answer of three.
pub recv_on-gdb_recv :
    (input buf : List ℕ) (fuel b : ℕ) (rc : Received) (s : Console) (q : List ℕ)
    → gdb_recv buf input ≡ some rc
    → IsQuick b s
    → IsPending s q input
    → length q + 3 * b < 127
    → length input < fuel
    → (t : Console) × (q' : List ℕ) × (recv_on fuel buf s ≡ some (rc.offset, rc.inbuffer, t))
      × IsPending t q' rc.input
      × (t.sent ≡ s.sent ++ rc.sent)
unfolding recv_on gdb_recv
recv_on-gdb_recv input buf fuel b rc s q e quick h room enough =
    looped (recv_loop input start) refl e
  where
    start : Recv
    start = record { found_start = false; checksum = 0; index = 0; inbuffer = buf }

    looped :
        (v : Option (Recv × List ℕ))
        → recv_loop input start ≡ v
        → elim v [ none ↦ none | some (r, rest) ↦ recv_end r rest ] ≡ some rc
        → Takes (behind_loop (recv_loop_on fuel start s)) s rc
    looped none run e = cc
    looped (some (r, rest)) run e =
        let (t, q1, run1, h1, few, quick1, sent1) =
          recv_loop_on-Stops input fuel (length q) b start r rest s q run quick h (omega arith)
            (omega arith) enough in
        let (u, q2, run2, h2, sent2) =
          recv_end_on-Takes rest b r rc t q1 e quick1 h1 (omega arith) in
        (u, q2, ap behind_loop run1 ∙ run2, h2, sent2 ∙ ap (λ l. l ++ rc.sent) sent1)
