-- ===== src/Gdb/OnLine/Loop.antt =====
-- The loop of `gdb_recv` of application/gdb_stub/gdb.c over the line.
use or1k_spartan6_platform_x.Base.{
  ℕ, zero, suc, ◌<◌, ◌≤◌, ◌≡◌, ap, sym, subst, ◌∙◌, arith, Bool-cases, inl, inr, Bool, true, false,
  ◌&&◌, Option, some, List, [], ◌∷◌, length, ◌==◌, if◌then◌else◌,
}
use or1k_spartan6_platform_x.GdbHw.{Console, gdb_getchar}
use or1k_spartan6_platform_x.GdbHw.Order.{IsPending, gdb_getchar-shrinks}
use or1k_spartan6_platform_x.Gdb.{Recv, recv_char, recv_loop}
use or1k_spartan6_platform_x.Gdb.OnLine.{or_next, recv_loop_on}
use or1k_spartan6_platform_x.Gdb.OnLine.Sent.{IsQuick}

-- What the loop leaves on the line where it stops with `out` and leaves `rest`.
abbrev pub Stops : ℕ → Recv → Console → ℕ → ℕ → Recv → List ℕ → Type 0
Stops fuel r s k b out rest =
    (t : Console) × (q : List ℕ) × (recv_loop_on fuel r s ≡ some (out, t))
    × IsPending t q rest
    × (length q ≤ k)
    × IsQuick b t
    × (t.sent ≡ s.sent)

recv_loop_on-next :
    (fuel ch k b : ℕ) (r out : Recv) (s t : Console) (rest : List ℕ)
    → gdb_getchar s ≡ some (ch, t)
    → ((ch == b'#') && r.found_start) ≡ false
    → t.sent ≡ s.sent
    → Stops fuel (recv_char ch r) t k b out rest
    → Stops (suc fuel) r s k b out rest
unfolding recv_loop_on
recv_loop_on-next fuel ch k b r out s t rest run other same (u, q, more, h, few, quick, sent) = (
  u,
  q,
  ap (λ x. or_next x r (recv_loop_on fuel)) run
      ∙ ap (λ (v : Bool). if v then some (r, t) else recv_loop_on fuel (recv_char ch r) t) other
      ∙ more,
  h,
  few,
  quick,
  sent ∙ same,
)

recv_loop_on-stop :
    (fuel ch k b : ℕ) (r : Recv) (s t : Console) (q rest : List ℕ)
    → gdb_getchar s ≡ some (ch, t)
    → ((ch == b'#') && r.found_start) ≡ true
    → IsPending t q rest
    → length q ≤ k
    → IsQuick b t
    → t.sent ≡ s.sent
    → Stops (suc fuel) r s k b r rest
unfolding recv_loop_on
recv_loop_on-stop fuel ch k b r s t q rest run stop h few quick sent = (
  t,
  q,
  ap (λ x. or_next x r (recv_loop_on fuel)) run
      ∙ ap (λ (v : Bool). if v then some (r, t) else recv_loop_on fuel (recv_char ch r) t) stop,
  h,
  few,
  quick,
  sent,
)

pub some_injective : {A : Type 0} (a b : A) → some a ≡ some b → a ≡ b
some_injective a b e = cc

pub recv_loop_on-Stops :
    (input : List ℕ) (fuel k b : ℕ) (r out : Recv) (rest : List ℕ) (s : Console) (q : List ℕ)
    → recv_loop input r ≡ some (out, rest)
    → IsQuick b s
    → IsPending s q input
    → length q ≤ k
    → k < 127
    → length input < fuel
    → Stops fuel r s k b out rest
unfolding recv_loop
recv_loop_on-Stops [] fuel k b r out rest s q e quick h few room more = cc
recv_loop_on-Stops (ch ∷ input) zero k b r out rest s q e quick h few room more =
    absurd (omega arith)
recv_loop_on-Stops (ch ∷ input) (suc fuel) k b r out rest s q e quick h few room more =
    let (t, q1, run, h1, few1, sent1, busy1) = gdb_getchar-shrinks s q ch input h (omega arith) in
    let quick1 : IsQuick b t = λ j. subst (λ f. f j ≤ b) (sym busy1) (quick j) in
    elim (Bool-cases ((ch == b'#') && r.found_start)) [
      | inl stop ↦
          let same : ◌≡◌ {A = Option (Recv × List ℕ)} (some (r, input)) (some (out, rest)) =
            ap (λ (v : Bool). if v then some (r, input) else recv_loop input (recv_char ch r))
              (sym stop)
            ∙ e in
          subst (λ x. Stops (suc fuel) r s k b x.0 x.1) (some_injective (r, input) (out, rest) same)
            (recv_loop_on-stop fuel ch k b r s t q1 input run stop h1 (omega arith) quick1 sent1)
      | inr other ↦ recv_loop_on-next fuel ch k b r out s t rest run other sent1 (
          recv_loop_on-Stops input fuel k b (recv_char ch r) out rest t q1
            (ap (λ (v : Bool). if v then some (r, input) else recv_loop input (recv_char ch r))
                (sym other)
              ∙ e)
            quick1 h1 (omega arith) room (omega arith))
    ]
