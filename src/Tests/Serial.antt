-- ===== src/Tests/Serial.antt =====
-- The debugger's serial line with concrete characters.
use or1k_spartan6_platform_x.Base.{
  zero, suc, sym, get_or, ℕ, ◌<◌, ◌≡◌, refl, arith, none, some, List, [], ◌∷◌, length, replicate,
}
use or1k_spartan6_platform_x.GdbHw.{Ring, Console, store, gdb_getchar, gdb_putstr}
use or1k_spartan6_platform_x.GdbHw.Queue.{IsQueue, store-overflow}
use or1k_spartan6_platform_x.GdbHw.Order.{IsPending, gdb_getchar-IsPending}
use or1k_spartan6_platform_x.GdbHw.Output.{gdb_putstr-IsPending}

abbrev empty : Ring
empty = record { rx_buf = λ i. 0; rx_head = 126; rx_tail = 126 }

empty-IsQueue : IsQueue empty []
empty-IsQueue = (omega arith, omega arith, refl, λ i lt. absurd (omega arith))

-- `+` and `$` come in at the second and the third look.
abbrev quiet : Console
quiet = record { ring = empty; line = none ∷ some 43 ∷ some 36 ∷ []; sent = []; busy = λ k. 2 }

gdb_getchar-IsPending_example :
    (t : Console) × (q : List ℕ) × (gdb_getchar quiet ≡ some (43, t))
    × IsPending t q (36 ∷ [])
    × (length q < 127)
    × (t.sent ≡ [])
gdb_getchar-IsPending_example =
    gdb_getchar-IsPending quiet [] 43 (36 ∷ []) (empty-IsQueue, refl) (omega arith)

gdb_putstr-IsPending_example :
    (q : List ℕ) × IsPending (gdb_putstr (79 ∷ 75 ∷ 10 ∷ []) quiet) q (43 ∷ 36 ∷ [])
gdb_putstr-IsPending_example =
    gdb_putstr-IsPending (79 ∷ 75 ∷ 10 ∷ []) 2 quiet [] (43 ∷ 36 ∷ []) (λ k. omega arith)
      (empty-IsQueue, refl) (omega arith)

-- A ring with 127 characters.
abbrev crowded : Ring
crowded = record { rx_buf = λ i. 0; rx_head = 0; rx_tail = 127 }

zeros : (n i : ℕ) → get_or {A = ℕ} (replicate n 0) i 0 ≡ 0
zeros zero i = refl
zeros (suc n) zero = refl
zeros (suc n) (suc i) = zeros n i

crowded-IsQueue : IsQueue crowded (replicate 127 0)
crowded-IsQueue = (omega arith, omega arith, refl, λ i lt. sym (zeros 127 i))

store-overflow_example : IsQueue (store crowded 36) []
store-overflow_example = store-overflow crowded (replicate 127 0) 36 crowded-IsQueue refl
