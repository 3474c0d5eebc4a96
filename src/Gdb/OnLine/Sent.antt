-- ===== src/Gdb/OnLine/Sent.antt =====
-- What goes out over the line when `gdb_send` of application/gdb_stub/gdb.c sends a packet.
use or1k_spartan6_platform_x.Base.{
  ◌⊎◌, Bool, Option, ℕ, zero, suc, ◌+◌, ◌*◌, ◌<◌, ◌≤◌, ◌≡◌, refl, ap, sym, subst, ◌∙◌, arith,
  Bool-cases, inl, inr, false, none, some, List, [], ◌∷◌, ◌++◌, length, length-append, append_assoc,
  append-nil, ◌==◌, if◌then◌else◌,
}
use native.Mathlib.Nat.{suc-mul, add-mul}
use or1k_spartan6_platform_x.GdbHw.{Console, gdb_putchar, gdb_getchar}
use or1k_spartan6_platform_x.GdbHw.Order.{IsPending, gdb_getchar-shrinks}
use or1k_spartan6_platform_x.GdbHw.Output.{gdb_putchar-kept, gdb_putchar-IsPending}
use or1k_spartan6_platform_x.Gdb.{packet, gdb_send}
use or1k_spartan6_platform_x.Gdb.OnLine.{put_all, or_resend, send_on}

-- The UART is busy for at most `b` looks with each character.
abbrev pub IsQuick : ℕ → Console → Type 0
IsQuick b s = (k : ℕ) → s.busy k ≤ b

pub put_all-IsPending :
    (cs : List ℕ) (b : ℕ) (s : Console) (q p : List ℕ)
    → IsQuick b s
    → IsPending s q p
    → length q + length cs * b < 128
    → (q' : List ℕ) × IsPending (put_all cs s) q' p
      × (length q' ≤ length q + length cs * b)
      × ((put_all cs s).sent ≡ s.sent ++ cs)
      × IsQuick b (put_all cs s)
unfolding put_all
put_all-IsPending [] b s q p quick h room = (q, h, omega arith, sym (append-nil s.sent), quick)
put_all-IsPending (c ∷ cs) b s q p quick h room =
    let step = suc-mul (length cs) b in
    let (q1, h1, few) = gdb_putchar-IsPending c b s q p quick h (omega (arith, step)) in
    let (sent1, busy1) = gdb_putchar-kept c s in
    let (q2, h2, few2, sent2, quick2) =
      put_all-IsPending cs b (gdb_putchar c s) q1 p
        (λ k. subst (λ f. f k ≤ b) (sym busy1) (quick k)) h1 (omega (arith, step, few)) in
    (
      q2,
      h2,
      omega (arith, step, few, few2),
      sent2 ∙ ap (λ l. l ++ cs) sent1 ∙ append_assoc s.sent (c ∷ []) cs,
      quick2,
    )

-- What `send_on` leaves behind where `gdb_send` sends `out` and leaves `rest`.
abbrev pub Sends : ℕ → List ℕ → Console → List ℕ → List ℕ → Type 0
Sends fuel payload s out rest =
    (t : Console) × (q : List ℕ) × (send_on fuel payload s ≡ some t)
    × IsPending t q rest
    × (t.sent ≡ s.sent ++ out)

send_on-acknowledged :
    (fuel : ℕ) (payload : List ℕ) (s t : Console) (q rest : List ℕ)
    → gdb_getchar (put_all (packet payload) s) ≡ some (b'+', t)
    → IsPending t q rest
    → t.sent ≡ s.sent ++ packet payload
    → Sends (suc fuel) payload s (packet payload) rest
unfolding send_on
send_on-acknowledged fuel payload s t q rest run h sent =
    (t, q, ap (λ x. or_resend x (send_on fuel payload)) run, h, sent)

send_on-again :
    (fuel ch : ℕ) (payload : List ℕ) (s t : Console) (out rest : List ℕ)
    → gdb_getchar (put_all (packet payload) s) ≡ some (ch, t)
    → (ch == b'+') ≡ false
    → t.sent ≡ s.sent ++ packet payload
    → Sends fuel payload t out rest
    → Sends (suc fuel) payload s (packet payload ++ out) rest
unfolding send_on
send_on-again fuel ch payload s t out rest run other sent (u, q, run', h, sent') = (
  u,
  q,
  ap (λ x. or_resend x (send_on fuel payload)) run
      ∙ ap (λ (v : Bool). if v then some t else send_on fuel payload t) other
      ∙ run',
  h,
  sent' ∙ ap (λ l. l ++ out) sent ∙ append_assoc s.sent (packet payload) out,
)

-- A packet is acknowledged by the next character, or sent again.
gdb_send-cons :
    (payload input out rest : List ℕ) (ch : ℕ)
    → gdb_send payload (ch ∷ input) ≡ some (out, rest)
    → ((ch ≡ b'+') × (out ≡ packet payload) × (rest ≡ input))
      ⊎ (((ch == b'+') ≡ false)
          × (more : List ℕ) × (gdb_send payload input ≡ some (more, rest))
          × (out ≡ packet payload ++ more))
unfolding gdb_send
gdb_send-cons payload input out rest ch e = elim (Bool-cases (ch == b'+')) [
  | inl plus ↦ inl (ground arith)
  | inr other ↦
      let r = again (gdb_send payload input) refl (after other e) in inr (other, r.0, r.1, r.2)
]
  where
    joined : Option (List ℕ × List ℕ) → Option (List ℕ × List ℕ)
    joined none = none
    joined (some (more, left)) = some (packet payload ++ more, left)

    after :
        (ch == b'+') ≡ false
        → gdb_send payload (ch ∷ input) ≡ some (out, rest)
        → joined (gdb_send payload input) ≡ some (out, rest)
    after other e = ground arith

    again :
        (v : Option (List ℕ × List ℕ))
        → gdb_send payload input ≡ v
        → joined v ≡ some (out, rest)
        → (more : List ℕ) × (gdb_send payload input ≡ some (more, rest))
          × (out ≡ packet payload ++ more)
    again none run e = cc
    again (some (more, left)) run e = (more, run ∙ ap (λ l. some (more, l)) (cc), cc)

-- Over the line gdb_send sends what it sends for the characters that wait in the ring or come in, and
-- leaves the others in their order, with fuel for a round for each of them: the UART is busy for at most
-- `b` looks with a character, and the ring has room for one for each look.
pub send_on-gdb_send :
    (input : List ℕ) (fuel b : ℕ) (payload out rest : List ℕ) (s : Console) (q : List ℕ)
    → gdb_send payload input ≡ some (out, rest)
    → IsQuick b s
    → IsPending s q input
    → length q + length out * b < 127
    → length input < fuel
    → Sends fuel payload s out rest
unfolding gdb_send
send_on-gdb_send [] fuel b payload out rest s q e quick h room more = cc
send_on-gdb_send (ch ∷ input) zero b payload out rest s q e quick h room more = absurd (omega arith)
send_on-gdb_send (ch ∷ input) (suc fuel) b payload out rest s q e quick h room more =
    elim (gdb_send-cons payload input out rest ch e) [
      | inl (plus, same, left) ↦
          let wide : length q + length (packet payload) * b < 127 =
            subst (λ o. length q + length o * b < 127) same room in
          let (q1, h1, few, sent, _) =
            put_all-IsPending (packet payload) b s q (ch ∷ input) quick h (omega arith) in
          let (t, q2, run, h2, few2, sent2, _) =
            gdb_getchar-shrinks (put_all (packet payload) s) q1 ch input h1 (omega arith) in
          subst (λ o. Sends (suc fuel) payload s o rest) (sym same)
            (subst (λ r. Sends (suc fuel) payload s (packet payload) r) (sym left)
              (send_on-acknowledged fuel payload s t q2 input (run ∙ ap (λ x. some (x, t)) plus) h2
                (sent2 ∙ sent)))
      | inr (other, later, run', same) ↦
          let longer : length out ≡ length (packet payload) + length later =
            ap length same ∙ length-append (packet payload) later in
          let split = ap (λ n. n * b) longer ∙ add-mul (length (packet payload)) (length later) b in
          let (q1, h1, few, sent, quick1) =
            put_all-IsPending (packet payload) b s q (ch ∷ input) quick h (omega (arith, split)) in
          let (t, q2, run, h2, few2, sent2, busy2) =
            gdb_getchar-shrinks (put_all (packet payload) s) q1 ch input h1
              (omega (arith, split)) in
          subst (λ o. Sends (suc fuel) payload s o rest) (sym same)
            (send_on-again fuel ch payload s t later rest run other (sent2 ∙ sent) (
              send_on-gdb_send input fuel b payload later rest t q2 run'
                (λ k. subst (λ f. f k ≤ b) (sym busy2) (quick1 k)) h2 (omega (arith, split))
                (omega arith)))
    ]
